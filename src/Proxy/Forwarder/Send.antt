-- ===== src/Proxy/Forwarder/Send.antt =====
-- proxy-server/app/forwarder.py: sending the payloads and merging the answers.
use open_yzj.Prelude.{
  Bool, Exc, List, Option, Result, String, [], all, concat, exc_name, exc_text, false,
  forward_config, if◌then◌else◌, is_empty, key_error, leb, ltb, none, not, ok, prefix, raise, some,
  true, ℕ, ◌&&◌, ◌==◌, ◌>>=◌, ◌||◌, ◌∷◌,
}
use open_yzj.Value.{Fields, Value, get, obj, truthy, ◌or◌}
use open_yzj.Value.Methods.{Codec, text_of}
use open_yzj.Proxy.Forwarder.Payload.{build_system_a_payloads, resolve_parsed}

-- An HTTP response: `resp.status_code`, `resp.json()`, `resp.text`.
pub record Response : Type 0 where
  pub status_code : ℕ
  pub json : Result Value
  pub text : String

-- `{ ok, status_code, error }`
pub record SendResult : Type 0 where
  pub succeeded : Bool
  pub status_code : Option ℕ
  pub error : Option String

pub record ForwardResult : Type 0 where
  pub succeeded : Bool
  pub status_code : Option ℕ
  pub error : Option String
  pub target_url : Value

unfoldable pub by_status : Response → SendResult
by_status resp =
    let in_range = leb 200 resp.status_code && ltb resp.status_code 300 in
    record {
      succeeded = in_range;
      status_code = some resp.status_code;
      error = if in_range then none else some (prefix 500 resp.text);
    }

unfoldable pub by_body : Codec → Response → Fields → SendResult
by_body c resp body =
    let good = truthy (get "success" body) || (text_of c (get "code" body) == "200") in
    record {
      succeeded = good;
      status_code = some resp.status_code;
      error = if good then none else some (prefix 500 (text_of c (get "message" body or obj body)));
    }

-- `f"{type(e).__name__}: {e}"`
abbrev pub exc_line : Exc → String
exc_line e = concat (exc_name e) (concat ": " (exc_text e))

-- the answer to one payload; a body that is no dict raises on `.get` and falls back to the status
unfoldable pub read_response : Codec → Result Response → SendResult
unfolding by_status by_body
read_response c (raise e) = record {
  succeeded = false;
  status_code = none;
  error = some (exc_line e);
}
read_response c (ok resp) = elim resp.json [
  | ok (obj body) ↦ by_body c resp body
  | _ ↦ by_status resp
]

-- `[r["error"] for r in results if r["error"]]`
unfoldable pub errors_of : List SendResult → List String
errors_of [] = []
errors_of (r ∷ rs) = elim r.error [
  | none ↦ errors_of rs
  | some e ↦ if is_empty e then errors_of rs else e ∷ errors_of rs
]

-- `"; ".join(errors)`
unfoldable pub join_errors : List String → String
join_errors [] = ""
join_errors (e ∷ []) = e
join_errors (e ∷ es) = concat e (concat "; " (join_errors es))

abbrev no_errors : List String → Bool
no_errors [] = true
no_errors (e ∷ es) = false

-- the merged answer; `results[0]` raises on an empty list
unfoldable pub merge_results : Value → List SendResult → Result ForwardResult
unfolding errors_of join_errors
merge_results target_url [] = raise key_error
merge_results target_url (r ∷ rs) =
    let errors = errors_of (r ∷ rs) in
    ok (record {
      succeeded = all (λ (x : SendResult). x.succeeded) (r ∷ rs);
      status_code = r.status_code;
      error = if no_errors errors then none else some (prefix 500 (join_errors errors));
      target_url = target_url;
    })

-- `post` is the network: it answers or raises, and the world outside changes. A URL is whatever the
-- database or the caller holds in its place; for one that is no text `post` raises.
module _ {W : Type 0} (post : W → Value → Fields → Result Response × W) (c : Codec) where
  -- `_send_one`
  unfoldable pub send_one : Value → Fields → W → SendResult × W
  unfolding read_response
  send_one target_url payload w =
      let (answer, w') = post w target_url payload in (read_response c answer, w')

  -- the list comprehension over the payloads, one after the other
  unfoldable pub send_all : Value → List Fields → W → List SendResult × W
  unfolding send_one
  send_all target_url [] w = ([], w)
  send_all target_url (p ∷ ps) w =
      let (r, w') = send_one target_url p w in
      let (rs, w'') = send_all target_url ps w' in (r ∷ rs, w'')

  unfoldable pub send_and_merge : Value → W → List Fields → Result ForwardResult × W
  unfolding send_all merge_results
  send_and_merge target_url w payloads =
      let (results, w') = send_all target_url payloads w in (merge_results target_url results, w')

  unfoldable pub forward_payloads : Value → W → Result (List Fields) → Result ForwardResult × W
  unfolding send_and_merge
  forward_payloads target_url w (ok payloads) = send_and_merge target_url w payloads
  forward_payloads target_url w (raise e) = (raise e, w)

  -- `forward_to_system_a`
  unfoldable pub forward_to_system_a : Fields → Value → W → Result ForwardResult × W
  unfolding forward_payloads resolve_parsed build_system_a_payloads
  forward_to_system_a doc target_url w =
      if not (truthy target_url)
      then (raise (forward_config "System A 目标 URL 未配置"), w)
      else forward_payloads target_url w
          (do parsed ← resolve_parsed c doc; build_system_a_payloads c parsed)
