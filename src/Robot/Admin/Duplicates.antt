-- ===== src/Robot/Admin/Duplicates.antt =====
-- server/app/api/admin.py with server/app/db/indexes.py: robots that have no id yet.
use open_yzj.Prelude.{String, ap, none, ok, refl, sym, true, ℕ, ◌∙◌, ◌≡◌}
use open_yzj.Prelude.Effect.{raise_pair}
use open_yzj.Value.{Fields, Value, contains, get, put}
use open_yzj.Mongo.{IsDocumented, Mongo, find_first}
use open_yzj.Mongo.Updates.{found_last}
use open_yzj.Indexes.{Enforces, clashes, robot_id_index}
use open_yzj.Robot.Admin.Views.{RobotCreateReq, robot_doc}
use open_yzj.Robot.Admin.Routes.{create_robot}
use open_yzj.Robot.Admin.Enrolment.{create_robot_inv}

module _ (m : Mongo) (good : IsDocumented m) (index : Enforces m good "robots" robot_id_index) where
  -- the documents of two robots without an id
  anonymous-clashes :
      (born later : ℕ) (first second : RobotCreateReq) (sealed sealed2 : String) (id : Value)
      → first.robot_id ≡ none
      → second.robot_id ≡ none
      → clashes robot_id_index
          (put "_id" id (robot_doc born first sealed))
          (robot_doc later second sealed2)
        ≡ true
  unfolding get put contains
  anonymous-clashes born later first second sealed sealed2 id a b = rw (a, b) refl

  -- With the unique sparse index on `robotId`, once a robot without an id is created, the creation
  -- of a second one on that database does not return. The database does what its manual says.
  pub create_robot-create_robot_refused :
      (encrypt encrypt2 : String → String) (born later : ℕ) (first second : RobotCreateReq)
      (s t u : m.State) (answer answer2 : Fields)
      → create_robot m encrypt born first s ≡ (ok answer, t)
      → first.robot_id ≡ none
      → second.robot_id ≡ none
      → ¬ (create_robot m encrypt2 later second t ≡ (ok answer2, u))
  create_robot-create_robot_refused encrypt encrypt2 born later first second s t u answer answer2
        made a b again =
      let (id, put_in) = create_robot_inv m encrypt born first s t answer _ _ refl refl made in
      let (id2, put_in2) =
        create_robot_inv m encrypt2 later second t u answer2 _ _ refl refl again in
      let d = put "_id" id (robot_doc born first (encrypt first.app_secret)) in
      let new = robot_doc later second (encrypt2 second.app_secret) in
      let (x, clash) =
        found_last (λ y. clashes robot_id_index y new) (good.docs s "robots") d
          (anonymous-clashes born later first second _ _ id a b) in
      let (e, v, refused, kept) = index.insert_refused t new x (
        ap (find_first (λ y. clashes robot_id_index y new))
          (good.insert_one_lem s t "robots" _ id put_in)
        ∙ clash) in
      raise_pair (sym refused ∙ put_in2)
