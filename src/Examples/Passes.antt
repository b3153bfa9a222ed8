-- ===== src/Examples/Passes.antt =====
-- server/app/services/handlers at concrete inputs.
use open_yzj.Mongo.{find_first}
use open_yzj.Robot.Handlers.Ai.{chat, run_ai_task}
use open_yzj.Robot.Handlers.Ai.Settled.{Tells, run_ai_task-Tells}
use open_yzj.Robot.Handlers.Api.{Times, api_handle}
use open_yzj.Robot.Handlers.Api.Logged.{IsLogged, api_handle-IsLogged}
use open_yzj.Prelude.{
  List, Result, String, [], has_char, if◌then◌else◌, lstrip, none, raise, refl, rstrip, some, strip,
  true, value_error, ℕ, ◌++◌, ◌==◌, ◌∷◌, ◌≡◌,
}
use open_yzj.Robot.Config.{Settings}
use open_yzj.Value.{Fields, end, field, get, str}
use open_yzj.Mongo.Memory.{Docs, memory, memory-IsDocumented, memory-IsReachable}
use open_yzj.Proxy.Forwarder.Send.{Response}
use open_yzj.Robot.Message.{Payload, ResponseData, Task}
use open_yzj.Robot.Handlers.Plates.{
  parse_plate_and_service, plate_length, run_length, search, upper,
}
use open_yzj.Robot.Handlers.Plates.Search.{Means, search-Means}
use open_yzj.Robot.Handlers.Mys4s.{mys4s_handle}
use open_yzj.Robot.Handlers.Mys4s.Course.{Course, mys4s_handle-Course}
use open_yzj.Examples.Samples.{accepting, plain}
use open_yzj.Examples.Robots.{hello}

search_example : Means "来访 沪a12345" (search "来访 沪a12345")
search_example = search-Means "来访 沪a12345"

plates :
    (parse_plate_and_service " 来访 沪a12345 " ≡ (some "沪A12345", "来访"))
    × (parse_plate_and_service "沪AD123456接待" ≡ (some "沪AD12345", "6接待"))
    × (parse_plate_and_service "无a12345" ≡ (none, ""))
    × (parse_plate_and_service "无ao23456" ≡ (none, ""))
    × (parse_plate_and_service "无ap234567" ≡ (some "无AP23456", "7"))
unfolding parse_plate_and_service search plate_length run_length upper strip lstrip rstrip has_char
plates = (refl, refl, refl, refl, refl)

abbrev pub settings : Settings
settings = record {
  openai_api_base = "https://ai.example/v1/";
  openai_api_key = "key";
  openai_model = "model";
  yunzhijia_webhook_url = "https://chat.example";
  base_url = "https://b.example";
  mys4s_base_url = "https://m.example";
  mys4s_api_key = "key";
  mys4s_secret_key = "secret";
  mys4s_card_template_id = "card";
}

abbrev pub visit : Payload
visit = record hello { content = "沪A12345 来访" }

abbrev shops : Docs
shops k =
    if k == "robots" then field "robot_code" (str "R") (field "sid" (str "s") end) ∷ [] else []

abbrev sending : ℕ → String → Fields → Fields → Result Response × ℕ
sending n url headers body = accepting n url body

abbrev run : Result ResponseData × (List Task × (Docs × ℕ))
run =
    mys4s_handle memory sending (λ key text. "sign") plain (λ d. raise value_error) (λ v. "{}")
      settings 7 visit "s1" "R" (shops, 0)

mys4s_handle_example :
    Course memory visit "R" sending
      (λ key text. "sign")
      plain
      (λ d. raise value_error)
      (λ v. "{}")
      settings
      shops
      0
      run
mys4s_handle_example =
    mys4s_handle-Course memory visit "R" sending (λ key text. "sign") plain (λ d. raise value_error)
      (λ v. "{}") settings 7 "s1" shops 0

abbrev fetching : ℕ → String → String → Fields → Result Response × ℕ
fetching n method url params = accepting n url params

abbrev times : Times
times = record { call_ms = 3; failed_ms = 4; cost_ms = 5 }

abbrev fetched : Result ResponseData × (List Task × ℕ)
fetched = api_handle fetching plain times visit "s1" "R" 0

api_handle_example : IsLogged visit "s1" fetched.0 fetched.1.0
api_handle_example = api_handle-IsLogged fetching plain times visit "s1" "R" 0

abbrev ask : String → ℕ → Result String × ℕ
ask = chat sending (λ e. true) plain settings

abbrev thought : Docs × ℕ
thought = run_ai_task memory accepting ask settings 5 6 7 visit "s1" "hello" "R" (shops, 0)

run_ai_task_example :
    (d : Fields) × (thought.0 "command_logs" ≡ shops "command_logs" ++ d ∷ [])
    × (get "msgId" d ≡ str "m1")
    × Tells (ask "hello" 0).0 d
unfolding find_first
run_ai_task_example =
    run_ai_task-Tells memory memory-IsDocumented memory-IsReachable 5 visit "s1" accepting ask
      settings 6 7 "hello" "R" shops 0 refl
