-- ===== src/Prelude/Basics.antt =====
-- Boolean tests, the conditional, equality as an instance, and Python's exceptions.
use Prim.Native.Nat.{ℕ, compare, Ordering}
use Prim.Native.String.{String}
use mathlib.Core.Path.{◌≡◌, refl}
use mathlib.Core.Logic.{◌↔◌, ◌⊎◌, inl, inr}
use mathlib.Core.Bool.{Bool, true, false}
use mathlib.Core.Option.{Option, none, some}
use native.Mathlib.Omega.{arith}
use text.Mathlib.Text.{◌==◌ as str_eq}
use text.Mathlib.TextEquality.{eq_iff}

abbrev pub ltb : ℕ → ℕ → Bool
ltb a b = elim (compare a b) [ Ordering.lt ↦ true | _ ↦ false ]

abbrev pub leb : ℕ → ℕ → Bool
leb a b = elim (compare a b) [ Ordering.gt ↦ false | _ ↦ true ]

abbrev pub nat_eqb : ℕ → ℕ → Bool
nat_eqb a b = elim (compare a b) [ Ordering.eq ↦ true | _ ↦ false ]

infix 1 if◌then◌else◌
abbrev pub if◌then◌else◌ {ℓ} : {A : Type ℓ} → Bool → A → A → A
if true then x else y = x
if false then x else y = y

-- To split on a computed value and keep the equation.
pub Bool-cases : (b : Bool) → (b ≡ true) ⊎ (b ≡ false)
Bool-cases true = inl refl
Bool-cases false = inr refl

pub Option-cases {ℓ} : {A : Type ℓ} (o : Option A) → (o ≡ none) ⊎ ((a : A) × (o ≡ some a))
Option-cases none = inl refl
Option-cases (some a) = inr (a, refl)

-- Equality of keys, as an instance.
pub record Eq {ℓ} (A : Type ℓ) : Type ℓ where
  pub holds : A → A → Bool
  pub holds_iff : (a b : A) → (holds a b ≡ true) ↔ (a ≡ b)

infix 50 ◌==◌
abbrev pub ◌==◌ {ℓ} : {A : Type ℓ} ⦃e : Eq A⦄ → A → A → Bool
◌==◌ ⦃e⦄ = e.holds

instance abbrev pub string_eq : Eq String
string_eq = record { holds = str_eq; holds_iff = eq_iff }

pub nat_eqb_iff : (a b : ℕ) → (nat_eqb a b ≡ true) ↔ (a ≡ b)
nat_eqb_iff a b = ground arith

instance abbrev pub nat_eq : Eq ℕ
nat_eq = record { holds = nat_eqb; holds_iff = nat_eqb_iff }

-- `x is not None`
abbrev pub is_some {ℓ} : {A : Type ℓ} → Option A → Bool
is_some none = false
is_some (some a) = true

-- What a Python call can raise.
pub data Error : Type 0 where
  value_error type_error normalization_error division_error : Error

pub data Result {ℓ} (A : Type ℓ) : Type ℓ where
  ok : A → Result A
  raise : Error → Result A

infixl 5 ◌>>=◌
abbrev pub ◌>>=◌ {ℓ κ} : {A : Type ℓ} {B : Type κ} → Result A → (A → Result B) → Result B
ok a >>= f = f a
raise e >>= f = raise e

-- The call returns, and what it returns satisfies the predicate.
abbrev pub Returns {ℓ} : {A : Type ℓ} → (A → Type 0) → Result A → Type 0
Returns P (ok a) = P a
Returns P (raise e) = ⊥

-- A call that returns, and then another one that does.
pub Returns-bind {ℓ κ} :
    {A : Type ℓ} {B : Type κ} (P : A → Type 0) (Q : B → Type 0) (m : Result A) (f : A → Result B)
    → Returns P m
    → ((a : A) → P a → Returns Q (f a))
    → Returns Q (m >>= f)
Returns-bind P Q (ok a) f h k = k a h
Returns-bind P Q (raise e) f h k = absurd h

-- What a computation satisfies if it returns.
abbrev pub OfOk {ℓ} : {A : Type ℓ} → (A → Type 0) → Result A → Type 0
OfOk P (ok a) = P a
OfOk P (raise e) = Unit

pub OfOk-bind {ℓ κ} :
    {A : Type ℓ} {B : Type κ} (P : A → Type 0) (Q : B → Type 0) (m : Result A) (f : A → Result B)
    → OfOk P m
    → ((a : A) → P a → OfOk Q (f a))
    → OfOk Q (m >>= f)
OfOk-bind P Q (ok a) f h k = k a h
OfOk-bind P Q (raise e) f h k = tt

pub OfOk-eq {ℓ} : {A : Type ℓ} (P : A → Type 0) (m : Result A) (a : A) → OfOk P m → m ≡ ok a → P a
OfOk-eq P m a h e = rw e at h

pub Returns-mono {ℓ} :
    {A : Type ℓ} {P Q : A → Type 0} (m : Result A)
    → ((a : A) → P a → Q a)
    → Returns P m
    → Returns Q m
Returns-mono (ok a) f h = f a h
Returns-mono (raise e) f h = h

pub Returns-eq {ℓ} :
    {A : Type ℓ} {P : A → Type 0} (m : Result A) → Returns P m → (a : A) × (m ≡ ok a) × P a
Returns-eq (ok a) h = (a, refl, h)
Returns-eq (raise e) h = absurd h

-- A property of a conditional, proved in each branch under the equation of its test.
pub on_if {ℓ κ} :
    {A : Type ℓ} (P : A → Type κ) (b : Bool) (x y : A)
    → (b ≡ true → P x)
    → (b ≡ false → P y)
    → P (if b then x else y)
on_if P true x y f g = f refl
on_if P false x y f g = g refl
