-- ===== src/Prelude/Sums.antt =====
-- Sums of a quantity over a list of records.
use mathlib.Core.Path.{◌≡◌, sym, ◌∙◌, ap}
use mathlib.Core.List.{List, [], ◌∷◌, ◌++◌}
use mathlib.Core.Option.{Option, none, some}
use deltaengine.Prelude.Int.{ℤ, pos, ◌+ℤ◌, +ℤ_assoc, +ℤ-zero, zero-+ℤ}

abbrev pub sum_by {ℓ} : {A : Type ℓ} → (A → ℤ) → List A → ℤ
sum_by f [] = pos 0
sum_by f (x ∷ xs) = f x +ℤ sum_by f xs

pub sum_by-append {ℓ} :
    {A : Type ℓ} (f : A → ℤ) (xs ys : List A) → sum_by f (xs ++ ys) ≡ sum_by f xs +ℤ sum_by f ys
sum_by-append f [] ys = sym (zero-+ℤ (sum_by f ys))
sum_by-append f (x ∷ xs) ys =
    ap (λ s. f x +ℤ s) (sum_by-append f xs ys) ∙ sym (+ℤ_assoc (f x) (sum_by f xs) (sum_by f ys))

pub sum_by_snoc {ℓ} :
    {A : Type ℓ} (f : A → ℤ) (xs : List A) (x : A) → sum_by f (xs ++ x ∷ []) ≡ sum_by f xs +ℤ f x
sum_by_snoc f xs x = sum_by-append f xs (x ∷ []) ∙ ap (λ s. sum_by f xs +ℤ s) (+ℤ-zero (f x))

-- The quantity of a record that may be missing.
abbrev pub sum_opt {ℓ} : {A : Type ℓ} → (A → ℤ) → Option A → ℤ
sum_opt f none = pos 0
sum_opt f (some a) = f a
