-- ===== src/Value/Methods.antt =====
-- Python's built-in functions and methods on dynamic values, and the codecs of its library.
use open_yzj.Prelude.{
  List, Result, String, [], attribute_error, concat, decimal, false, if◌then◌else◌, key_error,
  length, map, ok, raise, strip, text_length, true, type_error, ℕ, ◌=?◌, ◌∷◌,
}
use open_yzj.Bytes.{Integer}
use open_yzj.Value.{
  Fields, Value, arr, bool, contains, end, field, get, int, null, num, obj, of_list, size, str,
  to_list,
}

-- `json`, `base64` and `datetime` as the sources use them. Proofs go by no law of them.
pub record Codec : Type 0 where
  -- `json.loads(text)`
  pub loads : String → Result Value
  -- `json.loads(base64.b64decode(text))`
  pub loads_b64 : String → Result Value
  -- `base64.b64encode(json.dumps(value, ensure_ascii=False).encode("utf-8")).decode("utf-8")`
  pub dumps_b64 : Value → String
  -- `str` of a list or of a dict
  pub repr : Value → String
  -- `d.timestamp()`, in milliseconds, of a naive `datetime` that has the digits of an instant in
  -- UTC, in the timezone of the process
  pub timestamp : ℕ → ℕ

-- `str(v)`
abbrev pub text_of : Codec → Value → String
text_of c null = "None"
text_of c (bool true) = "True"
text_of c (bool false) = "False"
text_of c (int n) = decimal n
text_of c (num n) = n.repr
text_of c (str s) = s
text_of c v = c.repr v

-- `v.strip()`
unfoldable pub strip_value : Value → Result String
strip_value (str s) = ok (strip s)
strip_value _ = raise attribute_error

-- `d.get(k, default)`
abbrev pub get_default : String → Value → Fields → Value
get_default k default d = if contains k d then get k d else default

-- `len(v)`
unfoldable pub len_value : Value → Result ℕ
len_value (str s) = ok (text_length s)
len_value (arr vs) = ok (length (to_list vs))
len_value (obj d) = ok (size d)
len_value _ = raise type_error

unfoldable pub char_values : String → List Value
char_values String.[] = []
char_values (String.◌∷◌ c s) = str (String.◌∷◌ c String.[]) ∷ char_values s

-- what `v[0]`, `v[1]`, … give, for a `v` that has a length and is not empty
unfoldable pub elements : Value → Result (List Value)
unfolding char_values
elements (arr vs) = ok (to_list vs)
elements (str s) = ok (char_values s)
elements (obj d) = raise key_error
elements _ = raise type_error

-- `v.get(k)`
unfoldable pub get_value : String → Value → Result Value
get_value k (obj d) = ok (get k d)
get_value k _ = raise attribute_error

key_values : Fields → List Value
key_values end = []
key_values (field k v d) = str k ∷ key_values d

-- `for x in v`
unfoldable pub iterate : Value → Result (List Value)
unfolding char_values key_values
iterate (arr vs) = ok (to_list vs)
iterate (str s) = ok (char_values s)
iterate (obj d) = ok (key_values d)
iterate _ = raise type_error

-- `str(n)`
abbrev pub integer_text : Integer → String
integer_text i = if i.negative then concat "-" (decimal i.magnitude) else decimal i.magnitude

abbrev pub integer_value : Integer → Value
integer_value i =
    if i.negative
    then num (record { repr = integer_text i; is_zero = i.magnitude =? 0; is_below = λ n. true })
    else int i.magnitude

abbrev pub texts : List String → Value
texts ss = arr (of_list (map str ss))
