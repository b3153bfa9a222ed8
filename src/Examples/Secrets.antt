-- ===== src/Examples/Secrets.antt =====
-- server/app/core/deps.py at a concrete input: a robot with a plain secret.
use open_yzj.Prelude.{[], false, if◌then◌else◌, ok, refl, ◌==◌, ◌∷◌, ◌≡◌}
use open_yzj.Value.{Fields, contains, end, field, get, str}
use open_yzj.Mongo.{find_first, where_eq}
use open_yzj.Mongo.Memory.{Docs, matches_in, memory, memory-IsDocumented}
use open_yzj.Robot.Secret.{get_robot_secret, migration, robot_query}
use open_yzj.Robot.Secret.Migration.{IsMigrating, get_robot_secret_migrates}
use open_yzj.Examples.Robots.{vault}

abbrev old_robot : Fields
old_robot =
    field "_id" (str "1") (field "robotId" (str "r1") (field "appSecret" (str "secret") end))

abbrev before : Docs
before k = if k == "robots" then old_robot ∷ [] else []

abbrev after : Docs
after =
    (memory.update_one before "robots" (where_eq "_id" (str "1")) (migration (str "sealed") 5)
      false).1

old_robot-IsMigrating :
    IsMigrating memory memory-IsDocumented vault "prod" "r1" 5 "1" old_robot "secret"
      (str "sealed")
      before
      after
unfolding get contains find_first
old_robot-IsMigrating = record {
  real = refl;
  found = refl;
  not_sealed = refl;
  plain = refl;
  filled = refl;
  has_id = refl;
  named = refl;
  first = refl;
  seals = refl;
  not_blank = refl;
  unseals = refl;
  updates = 1;
  written = refl;
}

get_robot_secret_example :
    (get_robot_secret memory vault "prod" 5 "r1" before ≡ (ok (str "secret"), after))
    × (get_robot_secret memory vault "prod" 9 "r1" after ≡ (ok (str "secret"), after))
get_robot_secret_example =
    get_robot_secret_migrates memory memory-IsDocumented vault "prod" "r1" 5 "1" old_robot "secret"
      (str "sealed") before after old_robot-IsMigrating 9
      (find_first (matches_in (robot_query "r1")) (after "robots")) refl
