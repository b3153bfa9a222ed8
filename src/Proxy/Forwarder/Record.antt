-- ===== src/Proxy/Forwarder/Record.antt =====
-- proxy-server/app/forwarder.py, `record_forward_result`: the outcome is written to the event.
use open_yzj.Prelude.{
  Bool, Option, Result, String, [], ap, false, if◌then◌else◌, length, none, ok, some, ℕ, ◌++◌, ◌+◌,
  ◌∙◌, ◌∷◌, ◌≡◌, ◌≢◌, ◌≤◌,
}
use open_yzj.Value.{
  Fields, Value, as_list, as_number, bool, end, field, get, get-put, int, is_text, null, obj, str,
  to_list-of_list,
}
use open_yzj.Mongo.Updates.{
  find_first-update_first, find_first-update_first_other, find_first_sound, is_text_apart,
  length-keep_last, matches_text, update_docs_plain,
}
use open_yzj.Mongo.{
  IsDocumented, Mongo, Update, apply_update, find_first, keep_last, update_first, where_eq,
}
use open_yzj.Proxy.Forwarder.Send.{ForwardResult}

abbrev pub opt_int : Option ℕ → Value
opt_int none = null
opt_int (some n) = int n

abbrev pub opt_str : Option String → Value
opt_str none = null
opt_str (some s) = str s

abbrev pub status_text : Bool → String
status_text done = if done then "sent" else "failed"

-- the entry of `forward_history`
unfoldable pub history_entry : ℕ → Value → ForwardResult → Value
history_entry now target_url result = obj (
    field "at" (int now) (
      field "target_url" target_url (
        field "ok" (bool result.succeeded) (
          field "status_code" (opt_int result.status_code)
            (field "error" (opt_str result.error) end)))))

unfoldable pub forward_update : ℕ → Value → ForwardResult → Update
forward_update now target_url result = record {
  set = field "forward_status" (str (status_text result.succeeded)) (
      field "last_forward_at" (int now) (
        field "last_forward_status_code" (opt_int result.status_code)
          (field "last_forward_error" (opt_str result.error) end)));
  set_on_insert = end;
  unset = [];
  inc = ("forward_attempts", 1) ∷ [];
  push = ("forward_history", history_entry now target_url result, 10) ∷ [];
}

-- `record_forward_result`
unfoldable pub record_forward_result :
    (m : Mongo) → ℕ → Value → Value → ForwardResult → m.State → Result ℕ × m.State
unfolding forward_update
record_forward_result m now event_id target_url result s =
    m.update_one s "kdcloud_callbacks" (where_eq "_id" event_id)
      (forward_update now target_url result) false

-- What the event says of its forwarding, before and after.
pub record IsRecorded (now : ℕ) (url : Value) (result : ForwardResult) (before after : Fields)
    : Type 0 where
  pub status : get "forward_status" after ≡ str (status_text result.succeeded)
  pub attempts : get "forward_attempts" after ≡ int (as_number (get "forward_attempts" before) + 1)
  pub last_error : get "last_forward_error" after ≡ opt_str result.error
  pub history :
      as_list (get "forward_history" after)
      ≡ keep_last 10 (as_list (get "forward_history" before) ++ history_entry now url result ∷ [])
  pub history_bound : length (as_list (get "forward_history" after)) ≤ 10
  pub same_id : get "_id" after ≡ get "_id" before
  pub same_body : get "raw_body" after ≡ get "raw_body" before

history-applied :
    (now : ℕ) (url : Value) (r : ForwardResult) (d : Fields)
    → as_list (get "forward_history" (apply_update (forward_update now url r) d))
      ≡ keep_last 10 (as_list (get "forward_history" d) ++ history_entry now url r ∷ [])
unfolding forward_update apply_update
history-applied now url r d = simp (get-put, to_list-of_list)

applied-IsRecorded :
    (now : ℕ) (url : Value) (r : ForwardResult) (d : Fields)
    → IsRecorded now url r d (apply_update (forward_update now url r) d)
unfolding forward_update apply_update
applied-IsRecorded now url r d = record {
  status = simp get-put;
  attempts = simp get-put;
  last_error = simp get-put;
  history = history-applied now url r d;
  history_bound =
      rw (history-applied now url r d)
        (length-keep_last 10 (as_list (get "forward_history" d) ++ history_entry now url r ∷ []));
  same_id = simp get-put;
  same_body = simp get-put;
}

module _ (m : Mongo) (good : IsDocumented m) (now : ℕ) (event_id : String) (url : Value)
    (r : ForwardResult) (s t : m.State) (n : ℕ)
    (done : record_forward_result m now (str event_id) url r s ≡ (ok n, t)) where
  events_after :
      good.docs t "kdcloud_callbacks"
      ≡ update_first
          (λ e. is_text event_id (get "_id" e))
          (forward_update now url r)
          (good.docs s "kdcloud_callbacks")
  unfolding record_forward_result
  events_after =
      good.update_one_lem s t "kdcloud_callbacks" _ _ false n done
      ∙ update_docs_plain _ _ _ _
      ∙ ap (λ p. update_first p (forward_update now url r) (good.docs s "kdcloud_callbacks"))
          (matches_text m good "_id" event_id)

  -- When the outcome of a forwarding is written without an error to an event that is stored, the
  -- event then has the status of the outcome, one more attempt, the error of the outcome, and a
  -- history that is the last ten of the old entries and the new one; its id and its body are as
  -- before. The driver is assumed to do what its manual says.
  pub record_forward_result-IsRecorded :
      (d : Fields)
      → find_first (λ e. is_text event_id (get "_id" e)) (good.docs s "kdcloud_callbacks") ≡ some d
      → (e : Fields) × (find_first
            (λ e. is_text event_id (get "_id" e))
            (good.docs t "kdcloud_callbacks")
          ≡ some e)
        × IsRecorded now url r d e
  record_forward_result-IsRecorded d found = (
    apply_update (forward_update now url r) d,
    rw events_after (
        find_first-update_first _ _ _ d found
          (rw (applied-IsRecorded now url r d).same_id (find_first_sound _ _ d found))),
    applied-IsRecorded now url r d,
  )

  -- Writing the outcome of one event without an error leaves the event of any other id as it was.
  -- The driver is assumed to do what its manual says.
  pub record_forward_result_other :
      (other : String)
      → event_id ≢ other
      → find_first (λ e. is_text other (get "_id" e)) (good.docs t "kdcloud_callbacks")
        ≡ find_first (λ e. is_text other (get "_id" e)) (good.docs s "kdcloud_callbacks")
  record_forward_result_other other apart = rw events_after (
      find_first-update_first_other _ _ _ _ (λ d. rw (applied-IsRecorded now url r d).same_id)
        (λ d. is_text_apart event_id other (get "_id" d) apart))
