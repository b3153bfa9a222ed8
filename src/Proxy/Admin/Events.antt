-- ===== src/Proxy/Admin/Events.antt =====
-- proxy-server/app/admin.py: the two routes that read stored callbacks. The numbers of the query are
-- validated before.
use open_yzj.Prelude.{
  Exc, List, Option, Result, String, [], concat, exc_text, http_exception, if◌then◌else◌, is_empty,
  map, none, ok, raise, some, value_error, ℕ, ◌>>=◌, ◌∷◌,
}
use open_yzj.Value.{Fields, Value, arr, contains, end, field, get, int, obj, of_list, put}
use open_yzj.Mongo.{Mongo, where_eq}

-- the query of `find` and `count_documents`: keys with their texts, and the two ends of
-- `received_at`, in milliseconds
pub record EventFilter : Type 0 where
  pub equals : List (String × String)
  pub since : Option ℕ
  pub until : Option ℕ

-- the parameters of the request
pub record EventQuery : Type 0 where
  pub endpoint : Option String
  pub serial_no : Option String
  pub bill_no : Option String
  pub interface_code : Option String
  pub date_from : Option String
  pub date_to : Option String
  pub limit : ℕ
  pub offset : ℕ

-- `if v: q[key] = v`
abbrev pub asked : String → Option String → List (String × String) → List (String × String)
asked key none more = more
asked key (some v) more = if is_empty v then more else (key, v) ∷ more

-- `fromisoformat` is that of `datetime`, with UTC where a text names no zone
module _ (fromisoformat : String → Result ℕ) where
  abbrev pub bad_date : String → String → Exc → Exc
  bad_date text name value_error = http_exception 400 (
      concat "invalid "
        (concat name (concat ": " (concat text (concat " (" (concat (exc_text value_error) ")"))))))
  bad_date text name e = e

  -- `_parse_date`
  abbrev pub parse_date : String → String → Result ℕ
  parse_date text name = elim (fromisoformat text) [
    | ok t ↦ ok t
    | raise e ↦ raise (bad_date text name e)
  ]

  abbrev pub bound_of : String → Option String → Result (Option ℕ)
  bound_of name none = ok none
  bound_of name (some text) =
      if is_empty text then ok none else do t ← parse_date text name; ok (some t)

  unfoldable pub event_filter : EventQuery → Result EventFilter
  event_filter q = do
    since ← bound_of "date_from" q.date_from
    until ← bound_of "date_to" q.date_to
    ok (record {
      equals = asked "endpoint" q.endpoint (
          asked "serial_nos" q.serial_no
            (asked "bill_nos" q.bill_no (asked "interface_code" q.interface_code [])));
      since = since;
      until = until;
    })

-- `_serialize`: `show_id` is `str` of an `ObjectId`, and leaves any other value
abbrev pub serialize : (Value → Value) → Fields → Fields
serialize show_id doc = if contains "_id" doc then put "_id" (show_id (get "_id" doc)) doc else doc

-- the two reads of the driver: `page` has the number of documents to skip and the most to return,
-- gives the newest first, and leaves the three long fields out
module _ {S : Type 0} (count_documents : S → EventFilter → Result ℕ)
    (page : S → EventFilter → ℕ → ℕ → Result (List Fields)) (fromisoformat : String → Result ℕ)
    (show_id : Value → Value) where
  -- `list_callback_events`
  unfoldable pub list_callback_events : EventQuery → S → Result Fields
  unfolding event_filter
  list_callback_events q db = do
    filter ← event_filter fromisoformat q
    total ← count_documents db filter
    docs ← page db filter q.offset q.limit
    ok (
        field "total" (int total) (
          field "limit" (int q.limit) (
            field "offset" (int q.offset)
              (field "items" (arr (of_list (map (λ d. obj (serialize show_id d)) docs))) end))))

module _ (m : Mongo) (show_id : Value → Value) where
  abbrev pub event_found : Option Fields → Result Fields
  event_found none = raise (http_exception 404 "callback event not found")
  event_found (some doc) = ok (serialize show_id doc)

  -- `get_callback_event`; `oid` is `ObjectId(event_id)`, and none where that raises
  unfoldable pub get_callback_event : String → Option Value → m.State → Result Fields
  get_callback_event event_id none db =
      raise (http_exception 400 (concat "invalid event id: " event_id))
  get_callback_event event_id (some oid) db = do
    doc ← m.find_one db "kdcloud_callbacks" (where_eq "_id" oid)
    event_found doc
