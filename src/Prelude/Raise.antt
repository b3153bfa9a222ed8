-- ===== src/Prelude/Raise.antt =====
-- Python's exceptions, as far as the sources raise or tell them apart, and code that may raise.
use Prim.Native.Nat.{ℕ}
use Prim.Native.String.{String}
use mathlib.Core.Path.{◌≡◌, refl}
use mathlib.Core.Logic.{◌⊎◌, inl, inr}

-- `external` is whatever a driver, a network client or a codec raises: its class and its text.
pub data Exc : Type 0 where
  http_exception : ℕ → String → Exc
  forward_config : String → Exc
  forward_unsupported : String → Exc
  runtime_error : String → Exc
  attribute_error type_error key_error value_error : Exc
  external : String → String → Exc

pub data Result {ℓ} (A : Type ℓ) : Type ℓ where
  raise : Exc → Result A
  ok : A → Result A

-- what follows a part that may raise
infixl 5 ◌>>=◌
abbrev pub ◌>>=◌ {ℓ κ} :
    {Before : Type ℓ} {After : Type κ} → Result Before → (Before → Result After) → Result After
raise e >>= next = raise e
ok value >>= next = next value

-- `try: ... except Exception: handler`
abbrev pub catch {ℓ} : {A : Type ℓ} → Result A → (Exc → A) → A
catch (ok a) handler = a
catch (raise e) handler = handler e

-- `str(e)`; for Python's own errors their class stands for the text.
abbrev pub exc_text : Exc → String
exc_text (http_exception status detail) = detail
exc_text (forward_config detail) = detail
exc_text (forward_unsupported detail) = detail
exc_text (runtime_error detail) = detail
exc_text attribute_error = "AttributeError"
exc_text type_error = "TypeError"
exc_text key_error = "KeyError"
exc_text value_error = "ValueError"
exc_text (external name detail) = detail

-- `type(e).__name__`
abbrev pub exc_name : Exc → String
exc_name (http_exception status detail) = "HTTPException"
exc_name (forward_config detail) = "ForwardConfigError"
exc_name (forward_unsupported detail) = "ForwardUnsupportedError"
exc_name (runtime_error detail) = "RuntimeError"
exc_name attribute_error = "AttributeError"
exc_name type_error = "TypeError"
exc_name key_error = "KeyError"
exc_name value_error = "ValueError"
exc_name (external name detail) = name

-- the parts of a chain that returned
pub >>=-eq-ok {ℓ κ} :
    {Before : Type ℓ} {After : Type κ} (part : Result Before) (next : Before → Result After)
    {result : After}
    → (part >>= next) ≡ ok result
    → (value : Before) × (part ≡ ok value) × (next value ≡ ok result)
>>=-eq-ok (raise e) next h = cc
>>=-eq-ok (ok value) next h = (value, refl, h)

pub ok-injective {ℓ} : {A : Type ℓ} {a b : A} → Result.ok a ≡ ok b → a ≡ b
ok-injective h = cc

pub raise-ne-ok {ℓ} : {A : Type ℓ} {e : Exc} {a : A} → Result.raise e ≡ ok a → ⊥
raise-ne-ok h = cc

pub Result-cases {ℓ} :
    {A : Type ℓ} (r : Result A) → ((a : A) × (r ≡ ok a)) ⊎ ((e : Exc) × (r ≡ raise e))
Result-cases (ok a) = inl (a, refl)
Result-cases (raise e) = inr (e, refl)

-- Two continuations that agree on what the first part can return.
pub >>=-congr {ℓ κ} :
    {A : Type ℓ} {B : Type κ} (m : Result A) (f g : A → Result B)
    → ((a : A) → m ≡ ok a → f a ≡ g a)
    → (m >>= f) ≡ (m >>= g)
>>=-congr (ok a) f g h = h a refl
>>=-congr (raise e) f g h = refl
