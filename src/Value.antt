-- ===== src/Value.antt =====
-- Python's dynamic values, as `json.loads` gives them: `None`, `bool`, numbers, `str`, `list` and
-- `dict`. `int` holds the integers from 0 on; any other number is known by what the sources observe
-- of it: its `str()`, whether it is zero, and the integers from 0 on that it is below.
pub mod Methods
use open_yzj.Prelude.{
  Bool, List, Option, String, [], ap, arith, eq_iff, eq_refl, false, if◌then◌else◌, is_empty,
  is_some, none, not, refl, some, suc, true, ℕ, ◌&&◌, ◌==◌, ◌=?◌, ◌||◌, ◌∷◌, ◌≡◌,
}

pub record Number : Type 0 where
  pub repr : String
  pub is_zero : Bool
  pub is_below : ℕ → Bool

mutual
  -- A `dict` in insertion order.
  pub data Fields : Type 0 where
    end : Fields
    field : String → Value → Fields → Fields

  pub data Value : Type 0 where
    null : Value
    bool : Bool → Value
    int : ℕ → Value
    num : Number → Value
    str : String → Value
    arr : Items → Value
    obj : Fields → Value

  -- A `list`.
  pub data Items : Type 0 where
    nil : Items
    cons : Value → Items → Items

abbrev pub to_list : Items → List Value
to_list nil = []
to_list (cons v vs) = v ∷ to_list vs

abbrev pub of_list : List Value → Items
of_list [] = nil
of_list (v ∷ vs) = cons v (of_list vs)

-- `d.get(k)`: `None` for a missing key
unfoldable pub get : String → Fields → Value
get k end = null
get k (field j v d) = if j == k then v else get k d

-- `k in d`
unfoldable pub contains : String → Fields → Bool
contains k end = false
contains k (field j v d) = (j == k) || contains k d

-- `d[k] = v`
unfoldable pub put : String → Value → Fields → Fields
put k v end = field k v end
put k v (field j w d) = if j == k then field k v d else field j w (put k v d)

-- `d.pop(k)`, less its result
unfoldable pub pop : String → Fields → Fields
pop k end = end
pop k (field j w d) = if j == k then d else field j w (pop k d)

-- the test of `if v`, `a or b`
abbrev pub truthy : Value → Bool
truthy null = false
truthy (bool b) = b
truthy (int n) = not (n =? 0)
truthy (num n) = not n.is_zero
truthy (str s) = not (is_empty s)
truthy (arr nil) = false
truthy (arr (cons v vs)) = true
truthy (obj end) = false
truthy (obj (field k v d)) = true

infixr 30 ◌or◌
abbrev pub ◌or◌ : Value → Value → Value
a or b = if truthy a then a else b

abbrev pub is_null : Value → Bool
is_null null = true
is_null _ = false

-- `{k: v for k, v in d.items() if v is not None}`
unfoldable pub drop_nulls : Fields → Fields
drop_nulls end = end
drop_nulls (field k null d) = drop_nulls d
drop_nulls (field k v d) = field k v (drop_nulls d)

pub get-put :
    (k j : String) (v : Value) (d : Fields) → get j (put k v d) ≡ (if k == j then v else get j d)
unfolding get put
get-put k j v end = refl
get-put k j v (field i w d) = ground (arith, eq_iff k j, eq_iff i k, eq_iff i j, get-put k j v d)

pub get-put_self : (k : String) (v : Value) (d : Fields) → get k (put k v d) ≡ v
get-put_self k v d = simp (get-put, eq_refl)

pub contains-put :
    (k j : String) (v : Value) (d : Fields) → contains j (put k v d) ≡ ((k == j) || contains j d)
unfolding contains put
contains-put k j v end = refl
contains-put k j v (field i w d) =
    ground (arith, eq_iff k j, eq_iff i k, eq_iff i j, contains-put k j v d)

-- `if v is not None: update[k] = v`
abbrev pub given_field {ℓ} : {A : Type ℓ} → String → (A → Value) → Option A → Fields → Fields
given_field k as_value none d = d
given_field k as_value (some v) d = field k (as_value v) d

pub contains-given_field {ℓ} :
    {A : Type ℓ} (k j : String) (as_value : A → Value) (v : Option A) (d : Fields)
    → contains j (given_field k as_value v d) ≡ (((k == j) && is_some v) || contains j d)
unfolding contains
contains-given_field k j as_value none d = ground arith
contains-given_field k j as_value (some v) d = ground arith

-- `len(v)`
abbrev pub size : Fields → ℕ
size end = 0
size (field k v d) = suc (size d)

-- the texts equal, as a database compares a field with a text
abbrev pub is_text : String → Value → Bool
is_text s (str t) = s == t
is_text s _ = false

abbrev pub as_number : Value → ℕ
as_number (int n) = n
as_number _ = 0

abbrev pub as_list : Value → List Value
as_list (arr vs) = to_list vs
as_list _ = []

pub to_list-of_list : (vs : List Value) → to_list (of_list vs) ≡ vs
to_list-of_list [] = refl
to_list-of_list (v ∷ vs) = ap (λ ws. v ∷ ws) (to_list-of_list vs)
