-- ===== src/Robot/Handlers/Plates/Longest.antt =====
-- That the length of a match of `_PLATE_RE` is that of the longest plate that a text begins with.
use open_yzj.Prelude.{
  =?_iff, Bool, Bool-cases, Char, Option, String, arith, code, false, has_char, inl, inr, leb,
  leb→le, none, prefix, refl, some, suc, text_length, true, zero, ℕ, ◌&&◌, ◌=?◌, ◌||◌, ◌∙◌, ◌≡◌,
  ◌≤◌, ◌⊎◌,
}
use open_yzj.Robot.Handlers.Plates.{
  is_alnum, is_letter, is_temporary, plate_length, provinces, regular_length, run_length,
}
use open_yzj.Robot.Handlers.Plates.Regex.{
  all_chars, all_chars-eq, alnums, in_ranges, is_alnum-eq, is_letter-eq, is_plate, is_regular,
  is_temporary-eq, letters, run_length-all, run_length-longest, run_length_le, temporaries,
}

-- The run of `[A-Za-z0-9]`, six at most, is long enough where a text of the language begins.
regular_run :
    (j : ℕ) (s : String)
    → all_chars (in_ranges alnums) (prefix j s) ≡ true
    → text_length (prefix j s) ≤ 6
    → text_length (prefix j s) ≤ run_length is_alnum 6 s
regular_run j s good short =
    run_length-longest is_alnum 6 j s
      (all_chars-eq is_alnum (in_ranges alnums) is_alnum-eq (prefix j s) ∙ good) short

regular_all :
    (s : String) → all_chars (in_ranges alnums) (prefix (run_length is_alnum 6 s) s) ≡ true
regular_all s =
    rw (← all_chars-eq is_alnum (in_ranges alnums) is_alnum-eq (prefix (run_length is_alnum 6 s) s))
      (run_length-all is_alnum 6 s).0

-- What the length of the match at the start of a text says.
abbrev pub IsLongest : String → (String → Bool) → Option ℕ → Type 0
IsLongest s accepts none = (k : ℕ) → accepts (prefix k s) ≡ false
IsLongest s accepts (some n) =
    (accepts (prefix n s) ≡ true)
    × (text_length (prefix n s) ≡ n)
    × ((k : ℕ) → (accepts (prefix k s) ≡ false) ⊎ (text_length (prefix k s) ≤ n))

and_true : (a b : Bool) → (a && b) ≡ true → (a ≡ true) × (b ≡ true)
and_true true b h = (refl, h)
and_true false b h = cc

regular_parts :
    (c : Char) (t : String)
    → is_regular (String.◌∷◌ c t) ≡ true
    → (in_ranges letters c ≡ true)
      × (5 ≤ text_length t)
      × (text_length t ≤ 6)
      × (all_chars (in_ranges alnums) t ≡ true)
regular_parts c t h =
    let (letter, rest) = and_true (in_ranges letters c) _ h in
    let (sized, good) = and_true ((text_length t =? 5) || (text_length t =? 6)) _ rest in
    (letter, ground (arith, sized), ground (arith, sized), good)

-- A regular number at the start of a text shows in the run behind its letter.
regular_shows :
    (j : ℕ) (c : Char) (s : String)
    → is_regular (prefix (suc j) (String.◌∷◌ c s)) ≡ true
    → (is_letter c ≡ true)
      × (5 ≤ run_length is_alnum 6 s)
      × (text_length (prefix j s) ≤ run_length is_alnum 6 s)
regular_shows j c s h =
    let (letter, long, short, good) = regular_parts c (prefix j s) h in
    let shown = regular_run j s good short in
    (is_letter-eq c ∙ letter, omega (arith, long, shown), shown)

regular_none :
    (c : Char) (s : String)
    → (is_letter c && leb 5 (run_length is_alnum 6 s)) ≡ false
    → IsLongest (String.◌∷◌ c s) is_regular none
regular_none c s miss zero = refl
regular_none c s miss (suc j) = elim (Bool-cases (is_regular (prefix (suc j) (String.◌∷◌ c s)))) [
  | inl h ↦
      let (letter, long, shown) = regular_shows j c s h in
      absurd (ground (arith, miss, letter, long))
  | inr e ↦ e
]

regular_here :
    (c : Char) (s : String)
    → is_letter c ≡ true
    → 5 ≤ run_length is_alnum 6 s
    → IsLongest (String.◌∷◌ c s) is_regular (some (suc (run_length is_alnum 6 s)))
regular_here c s letter long =
    let (good, sized) = run_length-all is_alnum 6 s in
    let short = run_length_le is_alnum 6 s in
    (
      rw (← is_letter-eq c, letter, sized, regular_all s) (ground (arith, long, short)),
      omega (arith, sized),
      λ k. longest k,
    )
  where
    longest :
        (k : ℕ)
        → (is_regular (prefix k (String.◌∷◌ c s)) ≡ false)
          ⊎ (text_length (prefix k (String.◌∷◌ c s)) ≤ suc (run_length is_alnum 6 s))
    longest zero = inl refl
    longest (suc j) = elim (Bool-cases (is_regular (prefix (suc j) (String.◌∷◌ c s)))) [
      | inl h ↦ let (l, n, shown) = regular_shows j c s h in inr (omega (arith, shown))
      | inr e ↦ inl e
    ]

-- the length of a regular number at the start, which `regular_length` gives with that of a province
regular_length-cases :
    (s : String)
    → ((regular_length s ≡ none) × IsLongest s is_regular none)
      ⊎ ((n : ℕ) × (regular_length s ≡ some (suc n)) × IsLongest s is_regular (some n))
regular_length-cases String.[] = inl (refl, nothing)
  where
    nothing : (k : ℕ) → is_regular (prefix k "") ≡ false
    nothing zero = refl
    nothing (suc k) = refl
regular_length-cases (String.◌∷◌ c s) =
    elim (Bool-cases (is_letter c && leb 5 (run_length is_alnum 6 s))) [
      | inl e ↦
          let (letter, long) = and_true (is_letter c) _ e in
          inr (
            suc (run_length is_alnum 6 s),
            rw e refl,
            regular_here c s letter (leb→le 5 (run_length is_alnum 6 s) long),
          )
      | inr e ↦ inl (rw e refl, regular_none c s e)
    ]

abbrev is_tail_temporary : String → Bool
is_tail_temporary t = (text_length t =? 7) && all_chars (in_ranges temporaries) t

temporary_shows :
    (j : ℕ) (s : String)
    → is_tail_temporary (prefix j s) ≡ true
    → (run_length is_temporary 7 s ≡ 7) × (text_length (prefix j s) ≡ 7)
temporary_shows j s h =
    let (sized, good) = and_true (text_length (prefix j s) =? 7) _ h in
    let long = (=?_iff (text_length (prefix j s)) 7).0 sized in
    let more =
      run_length-longest is_temporary 7 j s
        (all_chars-eq is_temporary (in_ranges temporaries) is_temporary-eq (prefix j s) ∙ good)
        (omega (arith, long)) in
    (omega (arith, long, more, run_length_le is_temporary 7 s), long)

temporary_here :
    (s : String) → run_length is_temporary 7 s ≡ 7 → is_tail_temporary (prefix 7 s) ≡ true
temporary_here s h =
    let (good, sized) = run_length-all is_temporary 7 s in
    let sized7 : text_length (prefix 7 s) ≡ 7 = rw h at sized in
    rw (← all_chars-eq is_temporary (in_ranges temporaries) is_temporary-eq (prefix 7 s), sized7)
      (rw h at good)

temporary_none :
    (s : String) → (run_length is_temporary 7 s =? 7) ≡ false → IsLongest s is_tail_temporary none
temporary_none s miss k = elim (Bool-cases (is_tail_temporary (prefix k s))) [
  | inl h ↦ let (full, long) = temporary_shows k s h in absurd (ground (arith, miss, full))
  | inr e ↦ e
]

temporary_some :
    (s : String) → run_length is_temporary 7 s ≡ 7 → IsLongest s is_tail_temporary (some 7)
temporary_some s h =
    let here = temporary_here s h in
    (
      here,
      (temporary_shows 7 s here).1,
      λ k. elim (Bool-cases (is_tail_temporary (prefix k s))) [
        | inl good ↦ inr (omega (arith, (temporary_shows k s good).1))
        | inr e ↦ inl e
      ],
    )

module _ (c : Char) (accepts : String → Bool)
    (same : (t : String) → is_plate (String.◌∷◌ c t) ≡ accepts t) where
  behind_none : (s : String) → IsLongest s accepts none → IsLongest (String.◌∷◌ c s) is_plate none
  behind_none s h zero = refl
  behind_none s h (suc k) = same (prefix k s) ∙ h k

  behind_some :
      (s : String) (n : ℕ)
      → IsLongest s accepts (some n)
      → IsLongest (String.◌∷◌ c s) is_plate (some (suc n))
  behind_some s n (good, sized, longest) =
      (same (prefix n s) ∙ good, omega (arith, sized), λ k. longest_behind k)
    where
      longest_behind :
          (k : ℕ)
          → (is_plate (prefix k (String.◌∷◌ c s)) ≡ false)
            ⊎ (text_length (prefix k (String.◌∷◌ c s)) ≤ suc n)
      longest_behind zero = inl refl
      longest_behind (suc k) = elim (longest k) [
        | inl miss ↦ inl (same (prefix k s) ∙ miss)
        | inr le ↦ inr (omega (arith, le))
      ]

as_temporary :
    (c : Char) (t : String)
    → (code c =? 26080) ≡ true
    → is_plate (String.◌∷◌ c t) ≡ is_tail_temporary t
unfolding has_char
as_temporary c t e =
    let same : code c ≡ 26080 = (=?_iff (code c) 26080).0 e in
    rw same (or_false (is_tail_temporary t))
  where
    or_false : (b : Bool) → (b || false) ≡ b
    or_false true = refl
    or_false false = refl

as_regular :
    (c : Char) (t : String)
    → (code c =? 26080) ≡ false
    → has_char (code c) provinces ≡ true
    → is_plate (String.◌∷◌ c t) ≡ is_regular t
as_regular c t e p = rw (e, p) refl

as_other :
    (c : Char) (t : String)
    → (code c =? 26080) ≡ false
    → has_char (code c) provinces ≡ false
    → is_plate (String.◌∷◌ c t) ≡ false
as_other c t e p = rw (e, p) refl

province_length-IsLongest :
    (c : Char) (s : String)
    → (code c =? 26080) ≡ false
    → has_char (code c) provinces ≡ true
    → IsLongest (String.◌∷◌ c s) is_plate (regular_length s)
province_length-IsLongest c s e p =
    let same = λ (t : String). as_regular c t e p in
    elim (regular_length-cases s) [
      | inl (is, h) ↦ rw is (behind_none c is_regular same s h)
      | inr (n, is, h) ↦ rw is (behind_some c is_regular same s n h)
    ]

nowhere : (k : ℕ) → is_plate (prefix k "") ≡ false
nowhere zero = refl
nowhere (suc k) = refl

-- The length that `plate_length` gives is that of the longest plate at the start.
pub plate_length-IsLongest : (s : String) → IsLongest s is_plate (plate_length s)
unfolding plate_length
plate_length-IsLongest String.[] = nowhere
plate_length-IsLongest (String.◌∷◌ c s) = elim (Bool-cases (code c =? 26080)) [
  | inl e ↦ elim (Bool-cases (run_length is_temporary 7 s =? 7)) [
    | inl full ↦
        rw (e, full)
          (behind_some c is_tail_temporary (λ t. as_temporary c t e) s 7
            (temporary_some s ((=?_iff _ _).0 full)))
    | inr short ↦
        rw (e, short)
          (behind_none c is_tail_temporary (λ t. as_temporary c t e) s (temporary_none s short))
  ]
  | inr e ↦ elim (Bool-cases (has_char (code c) provinces)) [
    | inl p ↦ rw (e, p) (province_length-IsLongest c s e p)
    | inr p ↦ rw (e, p) (behind_none c (λ t. false) (λ t. as_other c t e p) s (λ k. refl))
  ]
]
