-- ===== src/Bytes.antt =====
-- Text as bytes, and Python's reading of an integer.
use open_yzj.Prelude.{
  Bool, Bool-cases, List, Option, Result, String, [], ap, append_assoc, code, concat, cons-append,
  eq_iff, false, if◌then◌else◌, inl, inr, leb, ltb, nil-append, none, ok, ok-injective, raise,
  raise-ne-ok, refl, some, strip, sym, true, type_error, ℕ, ◌%◌, ◌&&◌, ◌*◌, ◌++◌, ◌+◌, ◌-◌, ◌/◌,
  ◌==◌, ◌=?◌, ◌∙◌, ◌∷◌, ◌≡◌,
}

-- UTF-8 of one code point
unfoldable pub encode_char : ℕ → List ℕ
encode_char n =
    if ltb n 128
    then n ∷ []
    else if ltb n 2048
    then (192 + n / 64) ∷ (128 + n % 64) ∷ []
    else if ltb n 65536
    then (224 + n / 4096) ∷ (128 + n / 64 % 64) ∷ (128 + n % 64) ∷ []
    else (240 + n / 262144) ∷ (128 + n / 4096 % 64) ∷ (128 + n / 64 % 64) ∷ (128 + n % 64) ∷ []

-- `s.encode("utf-8")`
unfoldable pub encode : String → List ℕ
unfolding encode_char
encode String.[] = []
encode (String.◌∷◌ c s) = encode_char (code c) ++ encode s

pub encode-concat : (s t : String) → encode (concat s t) ≡ encode s ++ encode t
unfolding encode
encode-concat String.[] t = ap encode (nil-append t)
encode-concat (String.◌∷◌ c s) t =
    ap encode (cons-append c s t)
    ∙ (ap (λ x. encode_char (code c) ++ x) (encode-concat s t)
        ∙ sym (append_assoc (encode_char (code c)) (encode s) (encode t)))

-- `str.isascii`
abbrev pub is_ascii : String → Bool
is_ascii String.[] = true
is_ascii (String.◌∷◌ c s) = ltb (code c) 128 && is_ascii s

-- `hmac.compare_digest` of two texts
abbrev pub compare_digest : String → String → Result Bool
compare_digest a b = if is_ascii a && is_ascii b then ok (a == b) else raise type_error

pub compare_digest_sound : (a b : String) → compare_digest a b ≡ ok true → a ≡ b
compare_digest_sound a b h = elim (Bool-cases (is_ascii a && is_ascii b)) [
  | inl e ↦ (eq_iff a b).0 (ok-injective (rw e at h))
  | inr e ↦ absurd (raise-ne-ok (rw e at h))
]

-- An integer of Python: whether it is below 0, and its absolute value.
pub record Integer : Type 0 where
  pub negative : Bool
  pub magnitude : ℕ

-- the digits of an integer, with single `_` between them
parse_digits : ℕ → Bool → String → Option ℕ
parse_digits acc after_digit String.[] = if after_digit then some acc else none
parse_digits acc after_digit (String.◌∷◌ c s) =
    let n = code c in
    let next = parse_digits (acc * 10 + (n - 48)) true s in
    let gap = parse_digits acc false s in
    if leb 48 n && leb n 57 then next else if (n =? 95) && after_digit then gap else none

abbrev signed : Bool → Option ℕ → Option Integer
signed negative none = none
signed negative (some n) = some (record { negative = negative; magnitude = n })

parse_signed : String → Option Integer
unfolding parse_digits
parse_signed String.[] = none
parse_signed (String.◌∷◌ c s) =
    if code c =? b'-'
    then signed true (parse_digits 0 false s)
    else if code c =? b'+'
    then signed false (parse_digits 0 false s)
    else signed false (parse_digits 0 false (String.◌∷◌ c s))

-- `int(s)`, and none where it raises. Decimal digits outside ASCII are refused here.
unfoldable pub parse_int : String → Option Integer
unfolding parse_signed
parse_int s = parse_signed (strip s)

-- `abs(now - i)` for a `now` from 0 on
abbrev pub distance : ℕ → Integer → ℕ
distance now i = if i.negative then now + i.magnitude else (now - i.magnitude) + (i.magnitude - now)

parse_int_examples :
    (parse_int " 1_700 " ≡ some (record { negative = false; magnitude = 1700 }))
    × (parse_int "-5" ≡ some (record { negative = true; magnitude = 5 }))
    × (parse_int "1__0" ≡ none)
    × (parse_int "" ≡ none)
unfolding parse_int strip
parse_int_examples = (refl, refl, refl, refl)
