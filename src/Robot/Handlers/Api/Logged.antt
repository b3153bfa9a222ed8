-- ===== src/Robot/Handlers/Api/Logged.antt =====
-- What `ApiHandler.handle` answers and logs, in server/app/services/handlers/api_handler.py.
use open_yzj.Proxy.Kdcloud.Gateway.{raise_for_status}
use open_yzj.Prelude.{
  Exc, List, Result, String, [], eq_iff, none, none-ne-some, ok, raise, refl, some, sym, true, ◌==◌,
  ◌↔◌, ◌∷◌, ◌≡◌,
}
use open_yzj.Value.{Fields}
use open_yzj.Value.Methods.{Codec}
use open_yzj.Proxy.Forwarder.Send.{Response}
use open_yzj.Robot.Message.{
  ApiCallLog, CommandLog, Payload, ResponseData, Task, text_reply, write_command_log,
}
use open_yzj.Robot.Handlers.Api.{Times, answered, api_handle, call, checked, demo_api_url, received}

-- An answer with one log of it, which has one external call: the GET of the demo URL.
pub record IsLogged (p : Payload) (session_id : String) (r : Result ResponseData)
    (tasks : List Task) : Type 0 where
  pub reply : String
  pub log : CommandLog
  pub call_log : ApiCallLog
  pub answered_so : r ≡ ok (text_reply reply)
  pub logged : tasks ≡ write_command_log log ∷ []
  pub whose : (log.msg_id ≡ p.msg_id) × (log.session_id ≡ session_id)
  pub what : log.response_content ≡ some reply
  pub calls : log.external_api_calls ≡ call_log ∷ []
  pub of_demo : (call_log.url ≡ demo_api_url) × (call_log.method ≡ "GET")
  pub same_error : call_log.error ≡ log.error
  pub status_tells : (log.status ≡ "success") ↔ (log.error ≡ none)

failed_ne : ◌≡◌ {A = String} "failed" "success" → ⊥
failed_ne h = let e : ("failed" == "success") ≡ true = (eq_iff _ _).1 h in cc

module _ {N : Type 0} (request : N → String → String → Fields → Result Response × N) (c : Codec)
    (times : Times) (p : Payload) (session_id : String) where
  answered-IsLogged :
      (e : Exc) (n : N)
      → let x = answered request c times p session_id (raise e, n) in
        IsLogged p session_id x.0 x.1.0
  unfolding answered
  answered-IsLogged e n = record {
    reply = _;
    log = _;
    call_log = _;
    answered_so = refl;
    logged = refl;
    whose = (refl, refl);
    what = refl;
    calls = refl;
    of_demo = (refl, refl);
    same_error = refl;
    status_tells = (λ h. absurd (failed_ne h), λ h. absurd (none-ne-some (sym h)));
  }

  checked-IsLogged :
      (resp : Response) (r : Result Response) (n : N)
      → let x =
          answered request c times p session_id
            (checked request c times "GET" demo_api_url resp r n) in
        IsLogged p session_id x.0 x.1.0
  unfolding checked answered
  checked-IsLogged resp (raise e) n = answered-IsLogged e n
  checked-IsLogged resp (ok good) n = record {
    reply = _;
    log = _;
    call_log = _;
    answered_so = refl;
    logged = refl;
    whose = (refl, refl);
    what = refl;
    calls = refl;
    of_demo = (refl, refl);
    same_error = refl;
    status_tells = (λ h. refl, λ h. refl);
  }

  received-IsLogged :
      (y : Result Response × N)
      → let x =
          answered request c times p session_id (received request c times "GET" demo_api_url y) in
        IsLogged p session_id x.0 x.1.0
  unfolding received
  received-IsLogged (raise e, n) = answered-IsLogged e n
  received-IsLogged (ok resp, n) = checked-IsLogged resp (raise_for_status resp) n

  -- Whatever the network gives, the API handler answers with a text and adds one log with that
  -- text, the message and the session. The log has one external call, the GET of the demo URL, with
  -- the same error as the log, and its status is success exactly when there is no error.
  pub api_handle-IsLogged :
      (robot_code : String) (n : N)
      → let x = api_handle request c times p session_id robot_code n in
        IsLogged p session_id x.0 x.1.0
  unfolding api_handle call
  api_handle-IsLogged robot_code n = received-IsLogged (request n _ _ _)
