-- ===== src/Robot/Secret/Reading.antt =====
-- What `get_robot_secret` does with the document that it finds.
use open_yzj.Prelude.{Result, String, false, ok, some, true, ℕ, ◌&&◌, ◌==◌, ◌≡◌}
use open_yzj.Value.{Fields, Value, end, field, get, truthy}
use open_yzj.Mongo.{Mongo}
use open_yzj.Robot.Message.{test_robot_id}
use open_yzj.Robot.Secret.{Vault, get_robot_secret, is_non_prod, robot_query, secret_in}

module _ (m : Mongo) (v : Vault) (env robot_id : String)
    (real : ((robot_id == test_robot_id) && is_non_prod env) ≡ false) where
  -- a document that holds something is read as it is
  pub get_robot_secret_found :
      (db : m.State) (clock : ℕ) (k : String) (d : Fields) (r : Result Value × m.State)
      → m.find_one db "robots" (robot_query robot_id) ≡ ok (some d)
      → truthy (get k d) ≡ true
      → secret_in m v clock d db ≡ r
      → get_robot_secret m v env clock robot_id db ≡ r
  unfolding get_robot_secret get
  get_robot_secret_found db clock k end r read held e = cc
  get_robot_secret_found db clock k (field j w more) r read held e = rw (real, read) e
