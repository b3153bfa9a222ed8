-- ===== src/Robot/Handlers/Plates.antt =====
-- server/app/services/handlers/mys4s_handler.py, `_parse_plate_and_service`: the number plate and
-- the reason in a message.
pub mod Regex
pub mod Longest
pub mod Search
use open_yzj.Prelude.{
  Bool, Char, Option, String, code, has_char, if◌then◌else◌, is_empty, leb, none, not, prefix, some,
  strip, suc, suffix, zero, ℕ, ◌&&◌, ◌=?◌, ◌||◌,
}

-- `[A-Za-z]`, `[A-Za-z0-9]` and `[A-NP-Za-np-z0-9]`
abbrev pub is_letter : Char → Bool
is_letter c = (leb 65 (code c) && leb (code c) 90) || (leb 97 (code c) && leb (code c) 122)

abbrev pub is_alnum : Char → Bool
is_alnum c = is_letter c || (leb 48 (code c) && leb (code c) 57)

abbrev pub is_temporary : Char → Bool
is_temporary c = is_alnum c && not (code c =? b'O') && not (code c =? b'o')

abbrev pub provinces : String
provinces = "京津沪渝冀豫云辽黑湘皖鲁新苏浙赣鄂桂甘晋蒙陕吉闽贵粤川青藏琼宁"

-- how many characters at the start satisfy a test, `limit` at most
unfoldable pub run_length : (Char → Bool) → ℕ → String → ℕ
run_length p zero s = 0
run_length p (suc limit) String.[] = 0
run_length p (suc limit) (String.◌∷◌ c s) =
    let rest = run_length p limit s in if p c then suc rest else 0

-- `[A-Za-z0-9]{5,6}` behind the province and a letter
abbrev pub regular_length : String → Option ℕ
regular_length String.[] = none
regular_length (String.◌∷◌ c s) =
    if is_letter c && leb 5 (run_length is_alnum 6 s)
    then some (suc (suc (run_length is_alnum 6 s)))
    else none

-- the length of the match of `_PLATE_RE` at the start of a text
unfoldable pub plate_length : String → Option ℕ
unfolding run_length
plate_length String.[] = none
plate_length (String.◌∷◌ c s) =
    if code c =? 26080
    then (if run_length is_temporary 7 s =? 7 then some 8 else none)
    else if has_char (code c) provinces
    then regular_length s
    else none

-- `_PLATE_RE.search(s)`: what is before the match, the match, and what is after it
unfoldable pub search : String → Option (String × String × String)
unfolding plate_length
search String.[] = none
search (String.◌∷◌ c s) = elim (plate_length (String.◌∷◌ c s)) [
  | some n ↦ some ("", prefix n (String.◌∷◌ c s), suffix n (String.◌∷◌ c s))
  | none ↦ elim (search s) [
    | some (before, plate, after) ↦ some (String.◌∷◌ c before, plate, after)
    | none ↦ none
  ]
]

abbrev pub upper_in : String → String → Char → Char
upper_in (String.◌∷◌ l ls) (String.◌∷◌ u us) c = if code l =? code c then u else upper_in ls us c
upper_in _ _ c = c

-- `s.upper()` of a plate, which has no other letters with a case
unfoldable pub upper : String → String
upper String.[] = ""
upper (String.◌∷◌ c s) =
    String.◌∷◌ (upper_in "abcdefghijklmnopqrstuvwxyz" "ABCDEFGHIJKLMNOPQRSTUVWXYZ" c) (upper s)

-- `a or b or c`
abbrev pub first_of : String → String → String → String
first_of a b c = if not (is_empty a) then a else if not (is_empty b) then b else c

-- `_parse_plate_and_service`
unfoldable pub parse_plate_and_service : String → Option String × String
unfolding search upper strip
parse_plate_and_service content = elim (search (strip content)) [
  | none ↦ (none, "")
  | some (before, plate, after) ↦ (some (upper plate), first_of (strip after) (strip before) "来访")
]
