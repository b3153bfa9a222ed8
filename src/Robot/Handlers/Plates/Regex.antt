-- ===== src/Robot/Handlers/Plates/Regex.antt =====
-- `_PLATE_RE` of server/app/services/handlers/mys4s_handler.py as a language, and the runs of its
-- character classes.
use open_yzj.Prelude.{
  Bool, Bool-cases, Char, List, String, [], arith, code, false, has_char, inl, inr, leb, prefix,
  refl, suc, text_length, true, zero, ℕ, ◌&&◌, ◌=?◌, ◌||◌, ◌∷◌, ◌≡◌, ◌≤◌,
}
use open_yzj.Robot.Handlers.Plates.{is_alnum, is_letter, is_temporary, provinces, run_length}

abbrev pub all_chars : (Char → Bool) → String → Bool
all_chars p String.[] = true
all_chars p (String.◌∷◌ c s) = p c && all_chars p s

-- a character class, as the ranges between its brackets
abbrev pub in_ranges : List (ℕ × ℕ) → Char → Bool
in_ranges [] c = false
in_ranges ((low, high) ∷ more) c = (leb low (code c) && leb (code c) high) || in_ranges more c

-- `[A-Za-z]`, `[A-Za-z0-9]` and `[A-NP-Za-np-z0-9]`
abbrev pub letters : List (ℕ × ℕ)
letters = (65, 90) ∷ (97, 122) ∷ []

abbrev pub alnums : List (ℕ × ℕ)
alnums = (65, 90) ∷ (97, 122) ∷ (48, 57) ∷ []

abbrev pub temporaries : List (ℕ × ℕ)
temporaries = (65, 78) ∷ (80, 90) ∷ (97, 110) ∷ (112, 122) ∷ (48, 57) ∷ []

-- `[A-Za-z][A-Za-z0-9]{5,6}`
abbrev pub is_regular : String → Bool
is_regular String.[] = false
is_regular (String.◌∷◌ c s) =
    in_ranges letters c
    && (((text_length s =? 5) || (text_length s =? 6)) && all_chars (in_ranges alnums) s)

-- the texts that match `_PLATE_RE` as a whole: `无` (26080) and seven characters, or a province and
-- a regular number
abbrev pub is_plate : String → Bool
is_plate String.[] = false
is_plate (String.◌∷◌ c s) =
    ((code c =? 26080) && ((text_length s =? 7) && all_chars (in_ranges temporaries) s))
    || (has_char (code c) provinces && is_regular s)

pub is_letter-eq : (c : Char) → is_letter c ≡ in_ranges letters c
is_letter-eq c = ground arith

pub is_alnum-eq : (c : Char) → is_alnum c ≡ in_ranges alnums c
is_alnum-eq c = ground arith

pub is_temporary-eq : (c : Char) → is_temporary c ≡ in_ranges temporaries c
is_temporary-eq c = ground arith

pub all_chars-eq :
    (p q : Char → Bool) → ((c : Char) → p c ≡ q c) → (s : String) → all_chars p s ≡ all_chars q s
all_chars-eq p q h String.[] = refl
all_chars-eq p q h (String.◌∷◌ c s) = rw (h c, all_chars-eq p q h s) refl

module _ (p : Char → Bool) where
  pub run_length_le : (limit : ℕ) (s : String) → run_length p limit s ≤ limit
  unfolding run_length
  run_length_le zero s = omega arith
  run_length_le (suc limit) String.[] = omega arith
  run_length_le (suc limit) (String.◌∷◌ c s) = ground (arith, run_length_le limit s)

  -- The run satisfies the test, and it is as long as it says.
  pub run_length-all :
      (limit : ℕ) (s : String)
      → (all_chars p (prefix (run_length p limit s) s) ≡ true)
        × (text_length (prefix (run_length p limit s) s) ≡ run_length p limit s)
  unfolding run_length
  run_length-all zero s = (refl, refl)
  run_length-all (suc limit) String.[] = (refl, refl)
  run_length-all (suc limit) (String.◌∷◌ c s) =
      let (good, long) = run_length-all limit s in
      elim (Bool-cases (p c)) [
        | inl e ↦ rw e (rw e good, omega (arith, long))
        | inr e ↦ rw e (refl, refl)
      ]

  -- No longer text satisfies it.
  pub run_length-longest :
      (limit j : ℕ) (s : String)
      → all_chars p (prefix j s) ≡ true
      → text_length (prefix j s) ≤ limit
      → text_length (prefix j s) ≤ run_length p limit s
  unfolding run_length
  run_length-longest zero j s good short = short
  run_length-longest (suc limit) zero s good short = omega arith
  run_length-longest (suc limit) (suc j) String.[] good short = omega arith
  run_length-longest (suc limit) (suc j) (String.◌∷◌ c s) good short = elim (Bool-cases (p c)) [
    | inl e ↦
        let more = run_length-longest limit j s (rw e at good) (omega (arith, short)) in
        rw e (omega (arith, more))
    | inr e ↦ absurd (cc (rw e at good))
  ]
