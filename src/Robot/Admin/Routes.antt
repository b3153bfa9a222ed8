-- ===== src/Robot/Admin/Routes.antt =====
-- server/app/api/admin.py, the routes. A stored document is never empty, since it has an `_id`.
use open_yzj.Prelude.{
  List, Option, String, code, false, if◌then◌else◌, map, ok, raise, true, ℕ, ◌=?◌,
}
use open_yzj.Prelude.Effect.{Effect, lift, ◌>>=◌}
use open_yzj.Value.{Fields, bool, end, field, pop, str}
use open_yzj.Mongo.{Mongo, everything, where_eq}
use open_yzj.Robot.Admin.Views.{
  RobotCreateReq, RobotUpdateReq, public_all, refuse_code, robot_doc, robot_not_found, robot_update,
  shown_robot, to_public,
}
use mathlib.Core.Option

-- `encrypt` is `encrypt_secret`, with the random bytes of the request
module _ (m : Mongo) (encrypt : String → String) (now : ℕ) where
  abbrev pub robot_with_code : String → Effect m.State (Option Fields)
  robot_with_code code db = (m.find_one db "robots" (where_eq "robot_code" (str code)), db)

  -- `create_robot`; the answer shows no `_id`
  unfoldable pub create_robot : RobotCreateReq → Effect m.State Fields
  unfolding to_public
  create_robot req = do
    same_code ← robot_with_code req.robot_code
    free ← lift (refuse_code same_code)
    id ← λ db. m.insert_one db "robots" (robot_doc now req (encrypt req.app_secret))
    lift (to_public (robot_doc now req (encrypt req.app_secret)))

  -- `list_robots`; the query leaves out the secret
  unfoldable pub list_robots : Effect m.State (List Fields)
  unfolding public_all pop
  list_robots = do
    docs ← λ db. (m.find db "robots" everything, db)
    lift (public_all (map (pop "appSecret_encrypted") docs))

  -- `get_robot`
  unfoldable pub get_robot : String → Effect m.State Fields
  unfolding to_public
  get_robot robot_code = do doc ← robot_with_code robot_code; lift (shown_robot doc)

  -- `update_robot`
  unfoldable pub update_robot : String → RobotUpdateReq → Effect m.State Fields
  unfolding to_public
  update_robot robot_code req = do
    res ← λ db.
        m.find_one_and_update db "robots" (where_eq "robot_code" (str robot_code))
          (robot_update now req (Option.map encrypt req.app_secret)) false
    lift (shown_robot res)

  -- `delete_robot`
  unfoldable pub delete_robot : String → Effect m.State Fields
  delete_robot robot_code = do
    n ← λ db. m.delete_one db "robots" (where_eq "robot_code" (str robot_code))
    lift (if n =? 0 then raise robot_not_found else ok (field "deleted" (bool true) end))
