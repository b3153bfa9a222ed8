-- ===== src/Robot/Secret.antt =====
-- server/app/core/deps.py, `get_robot_secret`, and the robot's code of
-- server/app/api/yunzhijia.py, `_resolve_robot_code`.
pub mod Reading
pub mod Migration
use open_yzj.Prelude.{
  Bool, Result, String, [], concat, false, http_exception, if◌then◌else◌, none, ok, raise, some, ℕ,
  ◌&&◌, ◌==◌, ◌>>=◌, ◌||◌, ◌∷◌,
}
use open_yzj.Value.{Fields, Value, arr, contains, end, field, get, int, nil, str, truthy}
use open_yzj.Value.Methods.{get_default}
use open_yzj.Mongo.{Mongo, Query, Update, no_update, where_eq}
use open_yzj.Robot.Message.{test_robot_id}

-- `encrypt_secret` and `decrypt_secret`; neither is given a value that is no text here, which
-- would raise inside them.
pub record Vault : Type 0 where
  pub encrypt_secret : Value → Result Value
  pub decrypt_secret : Value → Result String

abbrev pub is_non_prod : String → Bool
is_non_prod env = (env == "dev") || (env == "test")

abbrev pub robot_query : String → Query
robot_query robot_id = where_eq "robotId" (str robot_id)

abbrev pub migration : Value → ℕ → Update
migration new_enc now = record no_update {
  set = field "appSecret_encrypted" new_enc (field "updated_at" (int now) end);
  unset = "appSecret" ∷ [];
}

-- a stored code; what the routes store is text
abbrev pub stored_text : Value → String
stored_text (str s) = s
stored_text _ = ""

module _ (m : Mongo) (v : Vault) where
  -- the encryption of a plain secret; whatever raises is logged
  unfoldable pub migrate : ℕ → Fields → Value → m.State → m.State
  migrate now doc plain db = elim (v.encrypt_secret plain) [
    | ok new_enc ↦
        if contains "_id" doc
        then (m.update_one db "robots" (where_eq "_id" (get "_id" doc)) (migration new_enc now)
            false).1
        else db
    | raise e ↦ db
  ]

  unfoldable pub secret_in : ℕ → Fields → m.State → Result Value × m.State
  unfolding migrate
  secret_in now doc db =
      let enc = get "appSecret_encrypted" doc in
      let plain = get "appSecret" doc in
      if truthy enc
      then (
        elim (v.decrypt_secret enc) [
          | ok secret ↦ ok (str secret)
          | raise e ↦ raise (http_exception 500 "appSecret decrypt failed")
        ],
        db,
      )
      else if truthy plain
      then (ok plain, migrate now doc plain db)
      else (raise (http_exception 500 "robot has no secret"), db)

  -- `get_robot_secret`: the secret as it is stored, which is text if a route stored it; an empty document counts as none
  unfoldable pub get_robot_secret : String → ℕ → String → m.State → Result Value × m.State
  unfolding secret_in
  get_robot_secret env now robot_id db =
      if (robot_id == test_robot_id) && is_non_prod env
      then (ok (str "test-secret"), db)
      else elim (m.find_one db "robots" (robot_query robot_id)) [
        | ok (some (field k w more)) ↦ secret_in now (field k w more) db
        | ok _ ↦ (raise (http_exception 401 (concat "Unknown robotId: " robot_id)), db)
        | raise e ↦ (raise e, db)
      ]

  -- `_resolve_robot_code`: the code and the handlers that are allowed
  unfoldable pub resolve_robot_code : String → String → m.State → Result (String × Value)
  resolve_robot_code robot_id url_robot_code db =
      if robot_id == test_robot_id then ok (url_robot_code, arr nil) else do
        found ← m.find_one db "robots" (robot_query robot_id)
        elim found [
          | some doc ↦
              if truthy (get "robot_code" doc)
              then ok
                  (stored_text (get "robot_code" doc), get_default "allowed_handlers" (arr nil) doc)
              else ok (url_robot_code, arr nil)
          | none ↦ ok (url_robot_code, arr nil)
        ]
