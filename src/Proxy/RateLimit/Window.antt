-- ===== src/Proxy/RateLimit/Window.antt =====
-- How many requests of one client get through in one minute.
use Prim.Native.Nat.{suc}
use open_yzj.Http.{Request, lookup_or_empty}
use open_yzj.Proxy.Auth.{text_id}
use open_yzj.Prelude.{
  Bool, Bool-cases, List, Option, Option-cases, Result, String, [], ap, arith, eq_refl, false,
  if◌then◌else◌, inl, inr, is_empty, le_of_ltb-eq-false, length, ltb, ltb→lt, none, ok,
  ok-injective, raise, refl, some, starts_with, suc, sym, true, ℕ, ◌+◌, ◌-◌, ◌/◌, ◌∙◌, ◌∷◌, ◌≡◌,
  ◌≤◌,
}
use open_yzj.Value.{Fields, as_number, contains, get, get-put, int, is_text, put, str, ◌or◌}
use open_yzj.Mongo.Updates.{find_first-upsert, matches_text}
use open_yzj.Mongo.{
  IsDocumented, Mongo, Query, Update, apply_update, find_first, returned, update_docs, upserted,
  where_eq,
}
use open_yzj.Proxy.RateLimit.{
  Decision, count_of, count_request, counter_id, counter_query, counter_update, decide, dispatch,
  pass_on, retry_after, too_many,
}

pub retry_after_bounds : (later : ℕ) → (1 ≤ retry_after later) × (retry_after later ≤ 60)
unfolding retry_after
retry_after_bounds later = omega arith

-- What the counter of a window stands at; it is absent before the first request.
abbrev pub counter_value : Option Fields → ℕ
counter_value none = 0
counter_value (some d) = as_number (get "count" d)

count-applied :
    (now : ℕ) (d : Fields)
    → get "count" (apply_update (counter_update now) d) ≡ int (as_number (get "count" d) + 1)
unfolding apply_update
count-applied now d = simp get-put

id-applied : (now : ℕ) (d : Fields) → get "_id" (apply_update (counter_update now) d) ≡ get "_id" d
unfolding apply_update
id-applied now d = simp get-put

upserted-counter :
    (now : ℕ) (id : String)
    → (get "count" (upserted (where_eq "_id" (str id)) (counter_update now)) ≡ int 1)
      × (is_text id (get "_id" (upserted (where_eq "_id" (str id)) (counter_update now))) ≡ true)
unfolding upserted get put
upserted-counter now id = (refl, eq_refl id)

returned-counter :
    (now : ℕ) (id : String) (ds : List Fields)
    → counter_value (
        returned
          (λ d. is_text id (get "_id" d))
          (where_eq "_id" (str id))
          (counter_update now)
          true
          ds)
      ≡ counter_value (find_first (λ d. is_text id (get "_id" d)) ds) + 1
unfolding returned
returned-counter now id ds = elim (Option-cases (find_first (λ d. is_text id (get "_id" d)) ds)) [
  | inl e ↦ rw (e, returned) (ap as_number (upserted-counter now id).0)
  | inr (d, e) ↦ rw (e, returned) (ap as_number (count-applied now d))
]

count_of-returned :
    (p : Fields → Bool) (q : Query) (u : Update) (ds : List Fields)
    → count_of (returned p q u true ds) ≡ counter_value (returned p q u true ds)
unfolding returned
count_of-returned p q u ds = elim (Option-cases (find_first p ds)) [
  | inl e ↦ rw (e, returned)
  | inr (d, e) ↦ rw (e, returned)
]

abbrev pub verdict : ℕ → ℕ → ℕ → Decision
verdict later n count = if ltb n count then too_many (retry_after later) else pass_on

decide_lem :
    (later n : ℕ) (counter : Option Fields)
    → decide later (int n) counter ≡ ok (verdict later n (count_of counter))
unfolding decide
decide_lem later n counter = refl

-- the number of requests that went on
abbrev pub passed : List Decision → ℕ
passed [] = 0
passed (pass_on ∷ ds) = suc (passed ds)
passed (too_many w ∷ ds) = passed ds

abbrev pub least : ℕ → ℕ → ℕ
least a b = if ltb a b then a else b

least_over : (a b : ℕ) → b ≡ 0 → least a b ≡ 0
least_over a b h = elim (Bool-cases (ltb a b)) [
  | inl e ↦ omega (arith, h, ltb→lt a b e)
  | inr e ↦ rw e h
]

least_none : (b : ℕ) → least 0 b ≡ 0
least_none b = ground arith

least-suc : (a b : ℕ) → least (suc a) (suc b) ≡ suc (least a b)
least-suc a b = elim (Bool-cases (ltb a b)) [
  | inl e ↦ elim (Bool-cases (ltb (suc a) (suc b))) [
    | inl f ↦ rw (e, f) refl
    | inr f ↦ omega (arith, ltb→lt a b e, le_of_ltb-eq-false (suc a) (suc b) f)
  ]
  | inr e ↦ elim (Bool-cases (ltb (suc a) (suc b))) [
    | inl f ↦ omega (arith, ltb→lt (suc a) (suc b) f, le_of_ltb-eq-false a b e)
    | inr f ↦ rw (e, f) refl
  ]
]

passed-verdict :
    (later n v : ℕ) (ds : List Decision)
    → passed ds ≡ least (length ds) (n - (v + 1))
    → passed (verdict later n (v + 1) ∷ ds) ≡ least (length (verdict later n (v + 1) ∷ ds)) (n - v)
passed-verdict later n v ds h = elim (Bool-cases (ltb n (v + 1))) [
  | inl over ↦ rw over (
      h
      ∙ least_over (length ds) (n - (v + 1)) (omega (arith, ltb→lt n (v + 1) over))
      ∙ sym (least_over (suc (length ds)) (n - v) (omega (arith, ltb→lt n (v + 1) over))))
  | inr under ↦ rw under (
      ap (λ k. suc k) h
      ∙ sym (least-suc (length ds) (n - (v + 1)))
      ∙ ap (least (suc (length ds))) (omega (arith, le_of_ltb-eq-false n (v + 1) under)))
]

module _ (m : Mongo) (good : IsDocumented m) (default_limit : ℕ) where
  -- the counter of one client in the minute of `now`
  abbrev pub value : Fields → ℕ → m.State → ℕ
  value client now s = counter_value (
      find_first (λ d. is_text (counter_id (text_id client) now) (get "_id" d))
        (good.docs s "proxy_rate_counters"))

  -- A request that the middleware counts for the client.
  pub record IsCounted (req : Request) (client : Fields) (n : ℕ) (s : m.State) : Type 0 where
    pub path : starts_with req.path "/api/proxy/v1/" ≡ true
    pub key : is_empty (lookup_or_empty "x-proxy-api-key" req.headers) ≡ false
    pub known :
        m.find_one s "proxy_clients"
          (where_eq "api_key" (str (lookup_or_empty "x-proxy-api-key" req.headers)))
        ≡ ok (some client)
    pub named : contains "client_id" client ≡ true
    pub limited : (get "rate_limit" client or int default_limit) ≡ int n

  count_request_inversion :
      (now later : ℕ) (client : Fields) (w : Result (Option Fields) × m.State) (d : Decision)
      (t : m.State)
      → count_request m default_limit now later client w ≡ (ok d, t)
      → (r : Option Fields) × (w ≡ (ok r, t))
        × (decide later (get "rate_limit" client or int default_limit) r ≡ ok d)
  unfolding count_request
  count_request_inversion now later client (ok r, db) d t h =
      (r, λ i. (ok r, (h i).1), ap (λ (x : Result Decision × m.State). x.0) h)
  count_request_inversion now later client (raise e, db) d t h = cc

  stood :
      (now later n : ℕ) (client : Fields) (s t : m.State) (d : Decision) (r : Option Fields)
      → (good.docs t "proxy_rate_counters"
          ≡ update_docs
              (good.matches (counter_query (text_id client) now))
              (counter_query (text_id client) now)
              (counter_update now)
              true
              (good.docs s "proxy_rate_counters"))
        × (r
            ≡ returned
                (good.matches (counter_query (text_id client) now))
                (counter_query (text_id client) now)
                (counter_update now)
                true
                (good.docs s "proxy_rate_counters"))
      → decide later (int n) r ≡ ok d
      → (value client now t ≡ value client now s + 1)
        × (d ≡ verdict later n (value client now s + 1))
  stood now later n client s t d r (docs_t, r_eq) decided =
      let id = counter_id (text_id client) now in
      let p = λ (e : Fields). is_text id (get "_id" e) in
      let q = counter_query (text_id client) now in
      let u = counter_update now in
      let ds = good.docs s "proxy_rate_counters" in
      let same : good.matches q ≡ p = matches_text m good "_id" id in
      let found : find_first p (update_docs p q u true ds) ≡ returned p q u true ds =
        find_first-upsert p u q ds (λ e here. rw (id-applied now e) here)
          (upserted-counter now id).1 in
      let one = returned-counter now id ds in
      let counts : count_of r ≡ counter_value (find_first p ds) + 1 =
        rw (r_eq, same) (count_of-returned p q u ds ∙ one) in
      (
        rw (docs_t, same, found) one,
        ok-injective (sym decided ∙ rw (sym counts) (decide_lem later n r)),
      )

  counted :
      (now later n : ℕ) (client : Fields) (s t : m.State) (d : Decision)
      → (get "rate_limit" client or int default_limit) ≡ int n
      → count_request m default_limit now later client (
          m.find_one_and_update s "proxy_rate_counters"
            (counter_query (text_id client) now)
            (counter_update now)
            true)
        ≡ (ok d, t)
      → (value client now t ≡ value client now s + 1)
        × (d ≡ verdict later n (value client now s + 1))
  counted now later n client s t d limited h =
      let (r, made, decided) =
        count_request_inversion now later client
          (m.find_one_and_update s "proxy_rate_counters" (counter_query (text_id client) now)
            (counter_update now) true)
          d t h in
      stood now later n client s t d r
        (good.find_one_and_update_lem s t "proxy_rate_counters" (counter_query (text_id client) now)
          (counter_update now) true r made)
        (rw limited at decided)

  dispatch-counts :
      (now later n : ℕ) (req : Request) (client : Fields) (s t : m.State) (d : Decision)
      → IsCounted req client n s
      → dispatch m default_limit now later req s ≡ (ok d, t)
      → (value client now t ≡ value client now s + 1)
        × (d ≡ verdict later n (value client now s + 1))
  unfolding dispatch
  dispatch-counts now later n req client s t d c h =
      counted now later n client s t d c.limited (rw (c.path, c.key, c.known, c.named) at h)

  -- Requests of one client in the minute of `now`, with the decisions on them, and between them
  -- whatever else leaves that counter as it is.
  pub data Burst (client : Fields) (n now : ℕ) : m.State → List Decision → m.State → Type 0 where
    done : (s : m.State) → Burst client n now s [] s
    elsewhere :
        (s t u : m.State) (ds : List Decision)
        → value client now t ≡ value client now s
        → Burst client n now t ds u
        → Burst client n now s ds u
    request :
        (s t u : m.State) (ds : List Decision) (req : Request) (later : ℕ) (d : Decision) (at : ℕ)
        → at / 60 ≡ now / 60
        → IsCounted req client n s
        → dispatch m default_limit at later req s ≡ (ok d, t)
        → Burst client n now t ds u
        → Burst client n now s (d ∷ ds) u

  same_minute :
      (client : Fields) (at now : ℕ) (s : m.State)
      → at / 60 ≡ now / 60
      → value client at s ≡ value client now s
  unfolding counter_id
  same_minute client at now s h = rw h refl

  -- Of the requests of one client in one minute that the middleware counts, whatever else happens
  -- between them as long as the client's counter is left alone, as many go on as the smaller of
  -- their number and what the limit leaves above the counter at the start. The driver is assumed to
  -- do what its manual says.
  pub passed-Burst :
      (client : Fields) (n now : ℕ) (s u : m.State) (ds : List Decision)
      → Burst client n now s ds u
      → passed ds ≡ least (length ds) (n - value client now s)
  passed-Burst client n now s _ _ (done _) = sym (least_none (n - value client now s))
  passed-Burst client n now s u ds (elsewhere _ t _ _ same b) =
      rw (sym same) (passed-Burst client n now t u ds b)
  passed-Burst client n now s u _ (request _ t _ ds req later d at minute c h b) =
      let (counts, is) = dispatch-counts at later n req client s t d c h in
      let here = same_minute client at now s minute in
      let there = same_minute client at now t minute in
      rw (is, here)
        (passed-verdict later n (value client now s) ds (
          passed-Burst client n now t u ds b
          ∙ ap (λ k. least (length ds) (n - k)) (sym there ∙ counts ∙ ap (λ k. k + 1) here)))
