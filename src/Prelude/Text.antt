-- ===== src/Prelude/Text.antt =====
-- Python's `str` methods that the sources use, over the native texts.
use Prim.Native.Nat.{ℕ, zero, suc, ◌≤◌, ◌/◌, ◌%◌}
use Prim.Native.Char.{Char, code}
use Prim.Native.String.{String, [], ◌∷◌, ◌++◌}
use mathlib.Core.Bool.{Bool, true, false, ◌&&◌, ◌||◌}
use mathlib.Core.List.{List}
use native.Mathlib.Omega.{arith}
use text.Mathlib.Text.{starts_with, ◌==◌}
use text.Mathlib.TextEquality.{eq_iff}
use mathlib.Core.Path.{◌≡◌}
use mathlib.Core.Logic.{◌≢◌, inl, inr}
use open_yzj.Prelude.Lists.{length}
use open_yzj.Prelude.Tests.{Bool-cases, if◌then◌else◌, leb, ltb, true-ne-false, ◌=?◌}

abbrev pub is_empty : String → Bool
is_empty [] = true
is_empty (_ ∷ _) = false

-- `s + t`
abbrev pub concat : String → String → String
concat s t = s ++ t

-- `len(s)`, in code points
abbrev pub text_length : String → ℕ
text_length [] = 0
text_length (_ ∷ s) = suc (text_length s)

-- `s[:n]`
abbrev pub prefix : ℕ → String → String
prefix zero s = []
prefix (suc n) [] = []
prefix (suc n) (c ∷ s) = c ∷ prefix n s

-- `s[n:]`
abbrev pub suffix : ℕ → String → String
suffix zero s = s
suffix (suc n) [] = []
suffix (suc n) (c ∷ s) = suffix n s

-- `str.isspace` of one character, the whole of Unicode
abbrev pub is_space : Char → Bool
is_space ch =
    let c = code ch in
    (leb 9 c && leb c 13)
    || (leb 28 c && leb c 32)
    || (c =? 133)
    || (c =? 160)
    || (c =? 5760)
    || (leb 8192 c && leb c 8202)
    || (c =? 8232)
    || (c =? 8233)
    || (c =? 8239)
    || (c =? 8287)
    || (c =? 12288)

module _ (p : Char → Bool) where
  -- `s.lstrip(chars)`, `chars` as a test
  unfoldable pub lstrip : String → String
  lstrip [] = []
  lstrip (c ∷ s) = let rest = lstrip s in if p c then rest else c ∷ s

  -- `s.rstrip(chars)`
  unfoldable pub rstrip : String → String
  rstrip [] = []
  rstrip (c ∷ s) = let rest = rstrip s in if p c && is_empty rest then [] else c ∷ rest

-- `s.strip()`
unfoldable pub strip : String → String
unfolding lstrip rstrip
strip s = rstrip is_space (lstrip is_space s)

prepend : Char → List String → List String
prepend c List.[] = List.◌∷◌ (c ∷ []) List.[]
prepend c (List.◌∷◌ w ws) = List.◌∷◌ (c ∷ w) ws

-- `s.split(sep)` for a separator of one character
unfoldable pub split : ℕ → String → List String
unfolding prepend
split sep [] = List.◌∷◌ [] List.[]
split sep (c ∷ s) =
    let rest = split sep s in if code c =? sep then List.◌∷◌ [] rest else prepend c rest

-- `ch in s` for a separator of one character
unfoldable pub has_char : ℕ → String → Bool
has_char sep [] = false
has_char sep (c ∷ s) = (code c =? sep) || has_char sep s

pub text_length-prefix : (n : ℕ) (s : String) → text_length (prefix n s) ≤ n
text_length-prefix zero s = omega arith
text_length-prefix (suc n) [] = omega arith
text_length-prefix (suc n) (c ∷ s) = omega (arith, text_length-prefix n s)

prepend_pos : (c : Char) (ws : List String) → 1 ≤ length (prepend c ws)
unfolding prepend
prepend_pos c List.[] = omega arith
prepend_pos c (List.◌∷◌ w ws) = omega arith

-- `split` never gives an empty list.
pub split_pos : (sep : ℕ) (s : String) → 1 ≤ length (split sep s)
unfolding split
split_pos sep [] = omega arith
split_pos sep (c ∷ s) = ground (arith, prepend_pos c (split sep s))

digit : ℕ → String
digit zero = "0"
digit (suc zero) = "1"
digit (suc (suc n)) =
    if n =? 0
    then "2"
    else if n =? 1
    then "3"
    else if n =? 2
    then "4"
    else if n =? 3
    then "5"
    else if n =? 4
    then "6"
    else if n =? 5
    then "7"
    else if n =? 6
    then "8"
    else "9"

decimal_fuel : ℕ → ℕ → String
decimal_fuel zero n = []
decimal_fuel (suc f) n =
    let more = decimal_fuel f (n / 10) in if ltb n 10 then digit n else concat more (digit (n % 10))

-- `str(n)` of an integer from 0 on; `n + 1` rounds are enough, as each divides by ten
unfoldable pub decimal : ℕ → String
unfolding decimal_fuel digit
decimal n = decimal_fuel (suc n) n

-- `p in s` for texts
unfoldable pub has_text : String → String → Bool
has_text p [] = is_empty p
has_text p (c ∷ s) = starts_with (c ∷ s) p || has_text p s

-- `==` of two texts that differ
pub eq_sym : (s t : String) → (s == t) ≡ (t == s)
eq_sym s t = ground (arith, eq_iff s t, eq_iff t s)

pub ne_of_eq-false : (s t : String) → (s == t) ≡ false → s ≢ t
ne_of_eq-false s t h e = true-ne-false ((eq_iff s t).1 e) h

pub eq-false_of_ne : (s t : String) → s ≢ t → (s == t) ≡ false
eq-false_of_ne s t h = elim (Bool-cases (s == t)) [
  | inl e ↦ absurd (h ((eq_iff s t).0 e))
  | inr e ↦ e
]
