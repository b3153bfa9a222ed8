-- ===== src/Robot/Handlers/Plates/Search.antt =====
-- That the search finds the first plate, and finds one if there is one.
use open_yzj.Prelude.{
  Bool-cases, Char, Option, String, ap, arith, concat, cons-append, false, inl, inr, leb, leb→le,
  nil-append, none, prefix, refl, some, subst, suc, suffix, sym, text_length, true, zero, ℕ, ◌<◌,
  ◌∙◌, ◌≡◌, ◌≤◌, ◌⊎◌,
}
use open_yzj.Robot.Handlers.Plates.Longest.{IsLongest, plate_length-IsLongest}
use open_yzj.Robot.Handlers.Plates.Regex.{is_plate}
use open_yzj.Robot.Handlers.Plates.{plate_length, search}

prefix-suffix : (n : ℕ) (s : String) → concat (prefix n s) (suffix n s) ≡ s
prefix-suffix zero s = nil-append s
prefix-suffix (suc n) String.[] = nil-append ""
prefix-suffix (suc n) (String.◌∷◌ c s) =
    cons-append c (prefix n s) (suffix n s) ∙ ap (String.◌∷◌ c) (prefix-suffix n s)

-- What an answer of `search` says by the length of a match at each place.
abbrev HasNoneBefore : ℕ → String → Type 0
HasNoneBefore k s = (n : ℕ) → n < k → plate_length (suffix n s) ≡ none

abbrev Finds : String → Option (String × String × String) → Type 0
Finds s none = (n : ℕ) → plate_length (suffix n s) ≡ none
Finds s (some (before, plate, after)) =
    (n : ℕ) × (s ≡ concat before (concat plate after))
    × (plate_length (concat plate after) ≡ some n)
    × (plate ≡ prefix n (concat plate after))
    × HasNoneBefore (text_length before) s

here : (s : String) (n : ℕ) → plate_length s ≡ some n → Finds s (some ("", prefix n s, suffix n s))
here s n h = (
  n,
  sym (nil-append (concat (prefix n s) (suffix n s)) ∙ prefix-suffix n s),
  rw (prefix-suffix n s) h,
  rw (prefix-suffix n s) refl,
  λ k lt. absurd (omega (arith, lt)),
)

one_more :
    (k : ℕ) (c : Char) (s : String)
    → plate_length (String.◌∷◌ c s) ≡ none
    → HasNoneBefore k s
    → HasNoneBefore (suc k) (String.◌∷◌ c s)
one_more k c s miss rest zero lt = miss
one_more k c s miss rest (suc n) lt = rest n (omega (arith, lt))

one_more_everywhere :
    (c : Char) (s : String)
    → plate_length (String.◌∷◌ c s) ≡ none
    → Finds s none
    → Finds (String.◌∷◌ c s) none
one_more_everywhere c s miss rest zero = miss
one_more_everywhere c s miss rest (suc n) = rest n

later :
    (c : Char) (s : String) (r : Option (String × String × String))
    → plate_length (String.◌∷◌ c s) ≡ none
    → Finds s r
    → Finds (String.◌∷◌ c s) (elim r [
      | some (before, plate, after) ↦ some (String.◌∷◌ c before, plate, after)
      | none ↦ none
    ])
later c s none miss rest = one_more_everywhere c s miss rest
later c s (some (before, plate, after)) miss (n, is, found, cut, first) = (
  n,
  ap (String.◌∷◌ c) is ∙ sym (cons-append c before (concat plate after)),
  found,
  cut,
  one_more (text_length before) c s miss first,
)

search_at :
    (c : Char) (s : String) (r : Option ℕ)
    → plate_length (String.◌∷◌ c s) ≡ r
    → Finds s (search s)
    → Finds (String.◌∷◌ c s) (elim r [
      | some n ↦ some ("", prefix n (String.◌∷◌ c s), suffix n (String.◌∷◌ c s))
      | none ↦ elim (search s) [
        | some (before, plate, after) ↦ some (String.◌∷◌ c before, plate, after)
        | none ↦ none
      ]
    ])
search_at c s none miss rest = later c s (search s) miss rest
search_at c s (some n) h rest = here (String.◌∷◌ c s) n h

nothing_at : (n : ℕ) → plate_length (suffix n "") ≡ none
unfolding plate_length
nothing_at zero = refl
nothing_at (suc n) = refl

search-Finds : (s : String) → Finds s (search s)
unfolding search
search-Finds String.[] = nothing_at
search-Finds (String.◌∷◌ c s) = search_at c s (plate_length (String.◌∷◌ c s)) refl (search-Finds s)

-- No part of a text that begins at a place is a plate.
abbrev pub HasNoneAt : String → ℕ → Type 0
HasNoneAt s n = (k : ℕ) → is_plate (prefix k (suffix n s)) ≡ false

-- What an answer of the search says.
abbrev pub Means : String → Option (String × String × String) → Type 0
Means s none = (n : ℕ) → HasNoneAt s n
Means s (some (before, plate, after)) =
    (s ≡ concat before (concat plate after))
    × (is_plate plate ≡ true)
    × ((k : ℕ)
        → (is_plate (prefix k (concat plate after)) ≡ false)
          ⊎ (text_length (prefix k (concat plate after)) ≤ text_length plate))
    × ((n : ℕ) → (text_length before ≤ n) ⊎ HasNoneAt s n)

none_at : (s : String) → plate_length s ≡ none → (k : ℕ) → is_plate (prefix k s) ≡ false
none_at s h = subst (IsLongest s is_plate) h (plate_length-IsLongest s)

found-Means : (s : String) (r : Option (String × String × String)) → Finds s r → Means s r
found-Means s none h = λ n. none_at (suffix n s) (h n)
found-Means s (some (before, plate, after)) (n, is, found, cut, first) =
    let rest = concat plate after in
    let (good, sized, longest) : IsLongest rest is_plate (some n) =
      subst (IsLongest rest is_plate) found (plate_length-IsLongest rest) in
    (
      is,
      subst (λ t. is_plate t ≡ true) (sym cut) good,
      λ k. elim (longest k) [
        | inl miss ↦ inl miss
        | inr le ↦
            inr (subst (λ l. text_length (prefix k rest) ≤ l) (sym (ap text_length cut ∙ sized)) le)
      ],
      λ j. elim (Bool-cases (leb (text_length before) j)) [
        | inl behind ↦ inl (leb→le (text_length before) j behind)
        | inr ahead ↦ inr (none_at (suffix j s) (first j (ground (arith, ahead))))
      ],
    )

-- The search for a plate answers with a split of the text into what is before, the plate and what
-- is after. The plate is `无` with seven letters or digits other than O, or a province, a letter and
-- five or six letters or digits; no longer plate begins where it begins, and none begins earlier.
-- It answers with nothing only when no plate begins anywhere.
pub search-Means : (s : String) → Means s (search s)
search-Means s = found-Means s (search s) (search-Finds s)
