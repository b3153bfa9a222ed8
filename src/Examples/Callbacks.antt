-- ===== src/Examples/Callbacks.antt =====
-- proxy-server/app/endpoints/callbacks.py, admin.py and runtime_config.py at concrete inputs.

use open_yzj.Proxy.Forwarder.Send.{forward_to_system_a}
use open_yzj.Proxy.Forwarder.Record.{record_forward_result}
use open_yzj.Prelude.{
  Option, [], arith, false, has_char, if◌then◌else◌, none, ok, refl, some, split, strip, sym, true,
  ◌++◌, ◌==◌, ◌∙◌, ◌∷◌, ◌≡◌, ◌≢◌,
}
use open_yzj.Value.{Fields, bool, contains, end, field, get, obj, str}
use open_yzj.Http.{Request}
use open_yzj.Mongo.{find_first}
use open_yzj.Mongo.Memory.{Docs, matches_in, memory, memory-IsDocumented}
use open_yzj.Proxy.RuntimeConfig.{
  get_auto_forward_enabled, set_auto_forward_enabled, settings_query, switch_update,
}
use open_yzj.Proxy.RuntimeConfig.Freshness.{
  AllRecent, get-set_auto_forward_enabled, reads, reads_are_recent,
}
use open_yzj.Proxy.Callbacks.Persist.{Decoder, Worker, ack, callback_doc, persist_and_ack}
use open_yzj.Proxy.Callbacks.AutoForward.{safe_auto_forward}
use open_yzj.Proxy.Callbacks.Scheduling.{
  MayBeSent, persist_and_ack_lem, safe_auto_forward-MayBeSent, started,
}
use open_yzj.Proxy.Admin.Replay.{ReplayReq, replay_callback_event}
use open_yzj.Proxy.Admin.Gate.{MayBeReplayed, replay_callback_event-MayBeReplayed}
use open_yzj.Examples.Samples.{accepting_texts, plain, stored, two-ne-zero, two_parsed}

abbrev decoder : Decoder
decoder = record { decode_replace = λ bs. "{}"; loads_bytes = λ bs. ok (obj two_parsed) }

abbrev posted : Request
posted = record {
  method = "POST";
  path = "/api/proxy/v1/callbacks/by-invoice";
  headers = [];
  query_params = [];
  client_host = some "10.0.0.1";
  body = 123 ∷ 125 ∷ [];
}

-- a worker whose cache says that forwarding is on
abbrev worker : Worker memory
worker = record { db = stored; cache = some (true, 50); tasks = [] }

persist_and_ack_example :
    let inserted =
      memory.insert_one stored "kdcloud_callbacks"
        (callback_doc memory plain decoder 7 posted "by-invoice" stored) in
    let (reply, after) = persist_and_ack memory plain decoder 7 3 posted "by-invoice" worker in
    (reply ≡ ack)
    × (after.db ≡ inserted.1)
    × (after.tasks ≡ worker.tasks ++ started memory 3 "by-invoice" worker inserted)
persist_and_ack_example = persist_and_ack_lem memory plain decoder 7 3 posted "by-invoice" worker

-- two payloads are sent for the stored event
two_sends : (safe_auto_forward memory accepting_texts plain 7 (str "e1") (stored, 0)).1 ≡ 2
unfolding safe_auto_forward find_first get contains strip has_char split forward_to_system_a
two_sends = refl

two_sent : (safe_auto_forward memory accepting_texts plain 7 (str "e1") (stored, 0)).1 ≢ 0
two_sent h = two-ne-zero (sym two_sends ∙ h)

safe_auto_forward_example : MayBeSent memory accepting_texts plain stored (str "e1")
safe_auto_forward_example =
    safe_auto_forward-MayBeSent memory accepting_texts plain 7 (str "e1") stored 0 two_sent

abbrev no_target : ReplayReq
no_target = record { target_url = none; client_id = none }

replay_sends :
    (replay_callback_event memory accepting_texts plain 7 "e1"
      (some (str "e1"))
      no_target
      (stored, 0)).1.1
    ≡ 2
unfolding replay_callback_event find_first get contains strip has_char split forward_to_system_a
    record_forward_result
replay_sends = refl

replay_sent :
    (replay_callback_event memory accepting_texts plain 7 "e1"
      (some (str "e1"))
      no_target
      (stored, 0)).1.1
    ≢ 0
replay_sent h = two-ne-zero (sym replay_sends ∙ h)

replay_example : MayBeReplayed memory accepting_texts plain (stored, 0) (str "e1") no_target
replay_example =
    replay_callback_event-MayBeReplayed memory accepting_texts plain 7 "e1" (str "e1") no_target
      stored 0 replay_sent

abbrev switched_on : Docs
switched_on k =
    if k == "proxy_settings"
    then field "_id" (str "forwarding") (field "auto_forward_enabled" (bool true) end) ∷ []
    else []

reads_example :
    AllRecent memory []
      ((5, stored) ∷ (7, switched_on) ∷ (20000, switched_on) ∷ [])
      (reads memory none ((5, stored) ∷ (7, switched_on) ∷ (20000, switched_on) ∷ []))
reads_example =
    reads_are_recent memory ((5, stored) ∷ (7, switched_on) ∷ (20000, switched_on) ∷ [])
      (omega arith, (omega arith, (omega arith, tt)))

abbrev switched : Docs
switched = (memory.update_one stored "proxy_settings" settings_query (switch_update true 9) true).1

switch_set :
    set_auto_forward_enabled memory true 9 stored (some (false, 50)) ≡ (ok tt, switched, none)
unfolding set_auto_forward_enabled
switch_set = refl

abbrev setting : Option Fields
setting = find_first (matches_in settings_query) (switched "proxy_settings")

get_auto_forward_example : (get_auto_forward_enabled memory 10 switched none).0 ≡ true
get_auto_forward_example =
    get-set_auto_forward_enabled memory memory-IsDocumented true 9 10 stored switched
      (some (false, 50)) none setting switch_set refl
