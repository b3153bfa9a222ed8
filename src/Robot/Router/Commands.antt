-- ===== src/Robot/Router/Commands.antt =====
-- Which messages a handler gets, whatever the order of the table.
use open_yzj.Prelude.{
  =?_iff, Bool, List, String, [], all, arith, false, if◌then◌else◌, inl, inr, not, refl, strip,
  subst, sym, true, ℕ, ◌=?◌, ◌||◌, ◌↔◌, ◌∙◌, ◌∷◌, ◌≡◌, ◌⊎◌,
}
use open_yzj.Robot.Router.{Handler, ai, any_command, api, echo, is_command, lower, mys4s, route}

-- The two texts differ at a place that both have.
unfoldable pub are_apart : List ℕ → List ℕ → Bool
are_apart [] qs = false
are_apart (p ∷ ps) [] = false
are_apart (p ∷ ps) (q ∷ qs) = not (p =? q) || are_apart ps qs

apart_commands :
    (ps qs text : List ℕ)
    → are_apart ps qs ≡ true
    → is_command ps text ≡ true
    → is_command qs text ≡ false
unfolding is_command are_apart
apart_commands [] qs text h k = cc
apart_commands (p ∷ ps) [] text h k = cc
apart_commands (p ∷ ps) (q ∷ qs) [] h k = cc
apart_commands (p ∷ ps) (q ∷ qs) (c ∷ text) h k =
    ground (arith, apart_commands ps qs text, =?_iff c p, =?_iff c q, =?_iff p q)

all_apart : List String → List String → Bool
all_apart ps qs = all (λ p. all (λ q. are_apart (lower p) (lower q)) qs) ps

one_apart :
    (p : String) (qs : List String) (text : List ℕ)
    → all (λ q. are_apart (lower p) (lower q)) qs ≡ true
    → is_command (lower p) text ≡ true
    → any_command qs text ≡ false
one_apart p [] text h k = refl
one_apart p (q ∷ qs) text h k =
    ground (arith, apart_commands (lower p) (lower q) text, one_apart p qs text)

groups_apart :
    (ps qs : List String) (text : List ℕ)
    → all_apart ps qs ≡ true
    → any_command ps text ≡ true
    → any_command qs text ≡ false
unfolding all_apart
groups_apart [] qs text h k = cc
groups_apart (p ∷ ps) qs text h k = ground (arith, one_apart p qs text, groups_apart ps qs text)

abbrev pub prefixes_of : Handler → List String
prefixes_of ai = "/ai" ∷ "#ai" ∷ []
prefixes_of api = "/api" ∷ "#api" ∷ []
prefixes_of echo = "/echo" ∷ []
prefixes_of mys4s = []

-- A message is meant for a handler: it starts with a command of it, or with none at all.
abbrev pub IsFor : Handler → String → Type 0
IsFor mys4s s = (h : Handler) → any_command (prefixes_of h) (lower (strip s)) ≡ false
IsFor h s = any_command (prefixes_of h) (lower (strip s)) ≡ true

abbrev pick : Bool → Bool → Bool → Handler
pick a b c = if a then ai else if b then api else if c then echo else mys4s

abbrev Bits : Handler → Bool → Bool → Bool → Type 0
Bits ai a b c = a ≡ true
Bits api a b c = b ≡ true
Bits echo a b c = c ≡ true
Bits mys4s a b c = (a ≡ false) × (b ≡ false) × (c ≡ false)

picked : (a b c : Bool) → Bits (pick a b c) a b c
picked true b c = refl
picked false true c = refl
picked false false true = refl
picked false false false = (refl, refl, refl)

clash : {b : Bool} → b ≡ true → b ≡ false → ⊥
clash h k = cc

pick_only :
    (h : Handler) (a b c : Bool)
    → (a ≡ true → b ≡ false)
    → (a ≡ true → c ≡ false)
    → (b ≡ true → c ≡ false)
    → Bits h a b c
    → pick a b c ≡ h
pick_only ai a b c x y z k = rw k refl
pick_only api true b c x y z k = absurd (clash k (x refl))
pick_only api false b c x y z k = rw k refl
pick_only echo true b c x y z k = absurd (clash k (y refl))
pick_only echo false true c x y z k = absurd (clash k (z refl))
pick_only echo false false c x y z k = rw k refl
pick_only mys4s a b c x y z (p, q, r) = rw (p, q, r) refl

list_cases : (xs : List ℕ) → (xs ≡ []) ⊎ ((x : ℕ) × (ys : List ℕ) × (xs ≡ x ∷ ys))
list_cases [] = inl refl
list_cases (x ∷ xs) = inr (x, xs, refl)

module _ (s : String) where
  bit : Handler → Bool
  bit h = any_command (prefixes_of h) (lower (strip s))

  route-pick : route s ≡ pick (bit ai) (bit api) (bit echo)
  unfolding route bit
  route-pick = elim (list_cases (lower (strip s))) [
    | inl e ↦ rw e refl
    | inr (c, text, e) ↦ rw e refl
  ]

  missing : bit ai ≡ false → bit api ≡ false → bit echo ≡ false → (h : Handler) → bit h ≡ false
  unfolding bit
  missing p q r ai = p
  missing p q r api = q
  missing p q r echo = r
  missing p q r mys4s = refl

  Bits-IsFor : (h : Handler) → Bits h (bit ai) (bit api) (bit echo) → IsFor h s
  unfolding bit
  Bits-IsFor ai k = k
  Bits-IsFor api k = k
  Bits-IsFor echo k = k
  Bits-IsFor mys4s (p, q, r) = λ k. missing p q r k

  IsFor-Bits : (h : Handler) → IsFor h s → Bits h (bit ai) (bit api) (bit echo)
  unfolding bit
  IsFor-Bits ai k = k
  IsFor-Bits api k = k
  IsFor-Bits echo k = k
  IsFor-Bits mys4s k = (k ai, k api, k echo)

  -- A message is routed to the handler of AI, of the API or of the echo exactly when it starts,
  -- blanks and case aside, with a command of that handler followed by nothing or a separator; and
  -- to the default exactly when it starts with no command. The order of the table does not matter.
  pub route-IsFor : (h : Handler) → (route s ≡ h) ↔ IsFor h s
  unfolding bit all_apart are_apart lower
  route-IsFor h =
      let text = lower (strip s) in
      (
        λ e. Bits-IsFor h (
            subst (λ k. Bits k (bit ai) (bit api) (bit echo)) (sym route-pick ∙ e)
              (picked (bit ai) (bit api) (bit echo))),
        λ k.
            route-pick
            ∙ pick_only h (bit ai) (bit api) (bit echo)
                (groups_apart (prefixes_of ai) (prefixes_of api) text refl)
                (groups_apart (prefixes_of ai) (prefixes_of echo) text refl)
                (groups_apart (prefixes_of api) (prefixes_of echo) text refl) (IsFor-Bits h k),
      )
