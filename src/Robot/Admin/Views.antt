-- ===== src/Robot/Admin/Views.antt =====
-- server/app/models/robot.py, and what server/app/api/admin.py stores and shows of a robot, with
-- `require_admin` of server/app/core/admin_auth.py.
use open_yzj.Prelude.{
  Bool, Exc, List, Option, Result, String, [], concat, external, http_exception, if◌then◌else◌,
  none, not, ok, raise, some, ℕ, ◌&&◌, ◌>>=◌, ◌∷◌,
}
use open_yzj.Bytes.{compare_digest}
use open_yzj.Value.{Fields, Value, arr, end, field, get, given_field, int, is_null, nil, str}
use open_yzj.Value.Methods.{texts}
use open_yzj.Mongo.{Update, no_update}
use open_yzj.Robot.Storage.{opt_text}

-- `RobotCreateReq`
pub record RobotCreateReq : Type 0 where
  pub robot_code : String
  pub name : String
  pub app_secret : String
  pub robot_id : Option String
  pub description : Option String
  pub sid : Option String
  pub company_name : Option String
  pub webhook_push_url : Option String
  pub allowed_handlers : List String

-- `RobotUpdateReq`
pub record RobotUpdateReq : Type 0 where
  pub name : Option String
  pub app_secret : Option String
  pub robot_id : Option String
  pub status : Option String
  pub description : Option String
  pub sid : Option String
  pub company_name : Option String
  pub webhook_push_url : Option String
  pub allowed_handlers : Option (List String)

-- `require_admin`
unfoldable pub require_admin : String → String → Result (Unit {0})
require_admin admin_token authorization = do
  same ← compare_digest authorization (concat "Bearer " admin_token)
  if same then ok tt else raise (http_exception 401 "invalid admin token")

-- the document of `create_robot`, a `RobotDoc` whose secret is encrypted already
abbrev pub robot_doc : ℕ → RobotCreateReq → String → Fields
robot_doc now req sealed = field "robot_code" (str req.robot_code) (
    field "robotId" (opt_text req.robot_id) (
      field "name" (str req.name) (
        field "appSecret_encrypted" (str sealed) (
          field "status" (str "active") (
            field "description" (opt_text req.description) (
              field "sid" (opt_text req.sid) (
                field "company_name" (opt_text req.company_name) (
                  field "webhook_push_url" (opt_text req.webhook_push_url) (
                    field "allowed_handlers" (texts req.allowed_handlers)
                      (field "created_at" (int now) (field "updated_at" (int now) end)))))))))))

-- the `$set` of `update_robot`
abbrev pub robot_update : ℕ → RobotUpdateReq → Option String → Update
robot_update now req sealed = record no_update {
  set = field "updated_at" (int now) (
      given_field "name" str req.name (
        given_field "robotId" str req.robot_id (
          given_field "status" str req.status (
            given_field "description" str req.description (
              given_field "sid" str req.sid (
                given_field "company_name" str req.company_name (
                  given_field "webhook_push_url" str req.webhook_push_url (
                    given_field "appSecret_encrypted" str sealed
                      (given_field "allowed_handlers" texts req.allowed_handlers end)))))))));
}

-- the fields that a `RobotPublic` cannot do without
abbrev pub is_complete : Fields → Bool
is_complete doc =
    not (is_null (get "robot_code" doc))
    && (not (is_null (get "name" doc))
        && (not (is_null (get "status" doc))
            && (not (is_null (get "created_at" doc)) && not (is_null (get "updated_at" doc)))))

abbrev pub handlers_or_none : Value → Value
handlers_or_none v = if is_null v then arr nil else v

-- `_to_public`; what is stored has the types that a `RobotPublic` asks for, or is missing
unfoldable pub to_public : Fields → Result Fields
to_public doc =
    if is_complete doc
    then ok (
        field "robot_code" (get "robot_code" doc) (
          field "robotId" (get "robotId" doc) (
            field "name" (get "name" doc) (
              field "status" (get "status" doc) (
                field "description" (get "description" doc) (
                  field "sid" (get "sid" doc) (
                    field "company_name" (get "company_name" doc) (
                      field "webhook_push_url" (get "webhook_push_url" doc) (
                        field "allowed_handlers" (handlers_or_none (get "allowed_handlers" doc)) (
                          field "created_at" (get "created_at" doc)
                            (field "updated_at" (get "updated_at" doc) end)))))))))))
    else raise (external "ValidationError" "RobotPublic")

abbrev pub robot_not_found : Exc
robot_not_found = http_exception 404 "robot not found"

-- `raise HTTPException` if the query found something
abbrev pub refuse_code : Option Fields → Result (Unit {0})
refuse_code none = ok tt
refuse_code (some d) = raise (http_exception 409 "robot_code already exists")

abbrev pub shown_robot : Option Fields → Result Fields
shown_robot none = raise robot_not_found
shown_robot (some doc) = to_public doc

-- `[_to_public(doc) async for doc in cursor]`
unfoldable pub public_all : List Fields → Result (List Fields)
unfolding to_public
public_all [] = ok []
public_all (d ∷ ds) = do shown ← to_public d; more ← public_all ds; ok (shown ∷ more)
