-- ===== src/Proxy/RuntimeConfig/Freshness.antt =====
-- How old the switch that the hot path reads can be, and that a change is seen at once.
use open_yzj.Mongo.Updates.{find_first-upsert, matches_text}
use open_yzj.Value.{Fields, bool, end, field, get, get-put, is_text, put}
use open_yzj.Prelude.{
  Bool, Bool-cases, List, Option, Option-cases, Result, [], ap, arith, inl, inr, ltb, ltb→lt, none,
  ok, raise, refl, some, sym, true, ℕ, ◌+◌, ◌<◌, ◌∙◌, ◌∷◌, ◌≡◌, ◌≤◌, ◌⊎◌,
}
use open_yzj.Mongo.{IsDocumented, Mongo, apply_update, find_first, returned, update_docs, upserted}
use open_yzj.Proxy.RuntimeConfig.{
  Cache, after_write, cache_ttl, enabled_in, get_auto_forward_enabled, read_switch,
  set_auto_forward_enabled, settings_query, switch_update,
}

module _ (m : Mongo) where
  -- The value came from a reading of the database, at one of the moments listed, less than the
  -- lifetime of the cache before `now`.
  abbrev pub IsRecent : ℕ → List (ℕ × m.State) → Bool → Type 0
  IsRecent now [] v = ⊥
  IsRecent now ((t, db) ∷ past) v =
      ((v ≡ read_switch m db) × (t ≤ now) × (now < t + cache_ttl)) ⊎ IsRecent now past v

  -- What the cache holds was read at a moment of the past, and expires ten seconds after it.
  abbrev pub IsReading : List (ℕ × m.State) → Bool → ℕ → Type 0
  IsReading [] v e = ⊥
  IsReading ((t, db) ∷ past) v e =
      ((v ≡ read_switch m db) × (e ≡ t + cache_ttl)) ⊎ IsReading past v e

  abbrev pub IsBacked : List (ℕ × m.State) → Cache → Type 0
  IsBacked past none = Unit
  IsBacked past (some (v, e)) = IsReading past v e

  -- Times only grow towards the head of the history.
  abbrev pub AllBefore : ℕ → List (ℕ × m.State) → Type 0
  AllBefore now [] = Unit
  AllBefore now ((t, db) ∷ past) = (t ≤ now) × AllBefore now past

  IsRecent-IsReading :
      (now e : ℕ) (past : List (ℕ × m.State)) (v : Bool)
      → AllBefore now past
      → now < e
      → IsReading past v e
      → IsRecent now past v
  IsRecent-IsReading now e [] v before young r = r
  IsRecent-IsReading now e ((t, db) ∷ past) v (here, before) young (inl (same, at)) =
      inl (same, here, omega arith)
  IsRecent-IsReading now e ((t, db) ∷ past) v (here, before) young (inr r) =
      inr (IsRecent-IsReading now e past v before young r)

  pub get_auto_forward_enabled-IsRecent :
      (now : ℕ) (db : m.State) (past : List (ℕ × m.State)) (cache : Cache)
      → AllBefore now past
      → IsBacked past cache
      → IsRecent now ((now, db) ∷ past) (get_auto_forward_enabled m now db cache).0
        × IsBacked ((now, db) ∷ past) (get_auto_forward_enabled m now db cache).1
  unfolding get_auto_forward_enabled
  get_auto_forward_enabled-IsRecent now db past none before backed =
      (inl (refl, omega arith, omega arith), inl (refl, refl))
  get_auto_forward_enabled-IsRecent now db past (some (v, e)) before backed =
      elim (Bool-cases (ltb now e)) [
        | inl young ↦
            rw young
              (inr (IsRecent-IsReading now e past v before (ltb→lt now e young) backed), inr backed)
        | inr old ↦ rw old (inl (refl, omega arith, omega arith), inl (refl, refl))
      ]

  -- The answers to readings at the times and database states given, oldest first.
  unfoldable pub reads : Cache → List (ℕ × m.State) → List Bool
  reads cache [] = []
  reads cache ((now, db) ∷ later) =
      let (v, cache') = get_auto_forward_enabled m now db cache in v ∷ reads cache' later

  abbrev pub AllRecent : List (ℕ × m.State) → List (ℕ × m.State) → List Bool → Type 0
  AllRecent past ((now, db) ∷ later) (v ∷ vs) =
      IsRecent now ((now, db) ∷ past) v × AllRecent ((now, db) ∷ past) later vs
  AllRecent past [] [] = Unit
  AllRecent past _ _ = ⊥

  abbrev pub IsOrdered : ℕ → List (ℕ × m.State) → Type 0
  IsOrdered t [] = Unit
  IsOrdered t ((now, db) ∷ later) = (t ≤ now) × IsOrdered now later

  AllBefore-le :
      (t now : ℕ) (past : List (ℕ × m.State)) → t ≤ now → AllBefore t past → AllBefore now past
  AllBefore-le t now [] h b = tt
  AllBefore-le t now ((u, db) ∷ past) h (k, b) = (omega arith, AllBefore-le t now past h b)

  reads-AllRecent :
      (t : ℕ) (past : List (ℕ × m.State)) (cache : Cache) (later : List (ℕ × m.State))
      → AllBefore t past
      → IsBacked past cache
      → IsOrdered t later
      → AllRecent past later (reads cache later)
  unfolding reads
  reads-AllRecent t past cache [] before backed order = tt
  reads-AllRecent t past cache ((now, db) ∷ later) before backed (le, order) =
      let before' = AllBefore-le t now past le before in
      let (recent, backed') = get_auto_forward_enabled-IsRecent now db past cache before' backed in
      (
        recent,
        reads-AllRecent now ((now, db) ∷ past) (get_auto_forward_enabled m now db cache).1 later
            (omega arith, before') backed' order,
      )

  -- In any sequence of readings of the switch at times that do not decrease, whatever the database
  -- does between them, each answer is what the database said at one of the readings up to then,
  -- less than ten seconds before.
  pub reads_are_recent :
      (later : List (ℕ × m.State)) → IsOrdered 0 later → AllRecent [] later (reads none later)
  reads_are_recent later order = reads-AllRecent 0 [] none later tt tt order

enabled_in-some :
    (d : Fields) (b : Bool) → get "auto_forward_enabled" d ≡ bool b → enabled_in (some d) ≡ b
unfolding get
enabled_in-some end b h = cc
enabled_in-some (field k v d) b h = rw h

enabled-applied :
    (b : Bool) (stamp : ℕ) (d : Fields)
    → get "auto_forward_enabled" (apply_update (switch_update b stamp) d) ≡ bool b
unfolding apply_update
enabled-applied b stamp d = simp get-put

id-applied :
    (b : Bool) (stamp : ℕ) (d : Fields)
    → get "_id" (apply_update (switch_update b stamp) d) ≡ get "_id" d
unfolding apply_update
id-applied b stamp d = simp get-put

abbrev is_settings : Fields → Bool
is_settings d = is_text "forwarding" (get "_id" d)

settings_fresh :
    (b : Bool) (stamp : ℕ) → is_settings (upserted settings_query (switch_update b stamp)) ≡ true
unfolding upserted get put
settings_fresh b stamp = refl

enabled-upserted :
    (b : Bool) (stamp : ℕ)
    → get "auto_forward_enabled" (upserted settings_query (switch_update b stamp)) ≡ bool b
unfolding upserted get put
enabled-upserted b stamp = refl

returned_enabled :
    (b : Bool) (stamp : ℕ) (ds : List Fields)
    → enabled_in (returned is_settings settings_query (switch_update b stamp) true ds) ≡ b
unfolding returned
returned_enabled b stamp ds = elim (Option-cases (find_first is_settings ds)) [
  | inl e ↦ rw (e, returned) (enabled_in-some _ b (enabled-upserted b stamp))
  | inr (d, e) ↦ rw (e, returned) (enabled_in-some _ b (enabled-applied b stamp d))
]

settings_found :
    (b : Bool) (stamp : ℕ) (ds : List Fields) (doc : Option Fields)
    → doc
      ≡ find_first is_settings
          (update_docs is_settings settings_query (switch_update b stamp) true ds)
    → enabled_in doc ≡ b
settings_found b stamp ds doc h =
    rw
      (h
        ∙ find_first-upsert is_settings (switch_update b stamp) settings_query ds
            (λ d here. rw (id-applied b stamp d) here) (settings_fresh b stamp))
      (returned_enabled b stamp ds)

module _ (m : Mongo) (good : IsDocumented m) where
  written :
      (b : Bool) (stamp n : ℕ) (db db' : m.State) (doc : Option Fields)
      → m.update_one db "proxy_settings" settings_query (switch_update b stamp) true ≡ (ok n, db')
      → m.find_one db' "proxy_settings" settings_query ≡ ok doc
      → enabled_in doc ≡ b
  written b stamp n db db' doc done found =
      settings_found b stamp (good.docs db "proxy_settings") doc (
        good.find_one_lem db' "proxy_settings" settings_query doc found
        ∙ rw (
          good.update_one_lem db db' "proxy_settings" settings_query (switch_update b stamp) true n
              done,
          matches_text m good "_id" "forwarding",
        ))

  read_switch_ok :
      (db : m.State) (doc : Option Fields)
      → m.find_one db "proxy_settings" settings_query ≡ ok doc
      → read_switch m db ≡ enabled_in doc
  unfolding read_switch
  read_switch_ok db doc h = rw (h, read_switch)

  after_write_inversion :
      (w : Result ℕ × m.State) (db' : m.State) (cache cache' : Cache)
      → after_write m w cache ≡ (ok tt, db', cache')
      → (n : ℕ) × (w ≡ (ok n, db')) × (cache' ≡ none)
  unfolding after_write
  after_write_inversion (ok n, db) db' cache cache' h =
      (n, λ i. (ok n, (h i).1), ap (λ (x : Result Unit × m.State × Cache). x.2) (sym h))
  after_write_inversion (raise e, db) db' cache cache' h = cc

  set_inversion :
      (b : Bool) (stamp : ℕ) (db db' : m.State) (cache cache' : Cache)
      → set_auto_forward_enabled m b stamp db cache ≡ (ok tt, db', cache')
      → (n : ℕ) × (m.update_one db "proxy_settings" settings_query (switch_update b stamp) true
          ≡ (ok n, db'))
        × (cache' ≡ none)
  unfolding set_auto_forward_enabled
  set_inversion b stamp db db' cache cache' h =
      after_write_inversion
        (m.update_one db "proxy_settings" settings_query (switch_update b stamp) true) db' cache
        cache' h

  -- After the switch is set without an error, the next reading answers what was set, whatever was
  -- cached, provided that its query does not raise. The driver is assumed to do what its manual
  -- says.
  pub get-set_auto_forward_enabled :
      (b : Bool) (stamp now : ℕ) (db db' : m.State) (cache cache' : Cache) (doc : Option Fields)
      → set_auto_forward_enabled m b stamp db cache ≡ (ok tt, db', cache')
      → m.find_one db' "proxy_settings" settings_query ≡ ok doc
      → (get_auto_forward_enabled m now db' cache').0 ≡ b
  unfolding get_auto_forward_enabled
  get-set_auto_forward_enabled b stamp now db db' cache cache' doc done found =
      let (n, wrote, cleared) = set_inversion b stamp db db' cache cache' done in
      rw cleared (read_switch_ok db' doc found ∙ written b stamp n db db' doc wrote found)
