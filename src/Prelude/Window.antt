-- ===== src/Prelude/Window.antt =====
-- A deque of bounded length: an append drops the oldest item once there are too many.
use Prim.Native.Nat.{ℕ, zero, suc, ◌-◌, ◌≤◌, ◌<◌}
use mathlib.Core.Path.{◌≡◌, refl, sym, ◌∙◌, ap}
use mathlib.Core.Logic.{inl, inr}
use mathlib.Core.List.{List, [], ◌∷◌, ◌++◌, map}
use native.Mathlib.Omega.{arith}
use deltaengine.Prelude.Basics.{ltb, if◌then◌else◌, Bool-cases, on_if}
use deltaengine.Prelude.Lists.{
  length, drop, length-append, length-drop, drop-append, All, All-append,
}

module _ {ℓ} {A : Type ℓ} where
  -- The last `n` items of a list.
  abbrev pub latest : ℕ → List A → List A
  latest n xs = drop (length xs - n) xs

  -- `append`, then `popleft` if the deque is longer than `n`.
  unfoldable pub push : ℕ → List A → A → List A
  push n xs x = let ys = xs ++ x ∷ [] in if ltb n (length ys) then drop 1 ys else ys

  pub push_short : (n : ℕ) (xs : List A) (x : A) → length xs < n → push n xs x ≡ xs ++ x ∷ []
  unfolding push
  push_short n xs x h = let size = length-append xs (x ∷ []) in ground (arith, size)

  pub push_three : (a b c x : A) → push 3 (a ∷ b ∷ c ∷ []) x ≡ b ∷ c ∷ x ∷ []
  unfolding push
  push_three a b c x = refl

  drop_one : (k : ℕ) (xs : List A) → drop 1 (drop k xs) ≡ drop (suc k) xs
  drop_one zero xs = refl
  drop_one (suc k) [] = refl
  drop_one (suc k) (x ∷ xs) = drop_one k xs

  pub latest_short : (n : ℕ) (xs : List A) → length xs ≤ n → latest n xs ≡ xs
  latest_short n xs h = let k : length xs - n ≡ 0 = omega arith in rw k refl

  drop_one-All : (P : A → Type 0) (xs : List A) → All P xs → All P (drop 1 xs)
  drop_one-All P [] h = h
  drop_one-All P (x ∷ xs) h = h.1

  pub push-All :
      (P : A → Type 0) (n : ℕ) (xs : List A) (x : A) → All P xs → P x → All P (push n xs x)
  unfolding push
  push-All P n xs x h k =
      let longer = All-append P xs (x ∷ []) h (k, tt) in
      on_if (All P) (ltb n (length (xs ++ x ∷ []))) _ _ (λ _. drop_one-All P _ longer) (λ _. longer)

  pub push-latest : (n : ℕ) (xs : List A) (x : A) → push n (latest n xs) x ≡ latest n (xs ++ x ∷ [])
  unfolding push
  push-latest n xs x =
      let k = length xs - n in
      let joined : drop k xs ++ x ∷ [] ≡ drop k (xs ++ x ∷ []) =
        sym (drop-append k xs (x ∷ []) (omega arith)) in
      let size = length-append (drop k xs) (x ∷ []) in
      let left = length-drop k xs in
      let all = length-append xs (x ∷ []) in
      elim (Bool-cases (ltb n (length (drop k xs ++ x ∷ [])))) [
        | inl l ↦
            let step : length (xs ++ x ∷ []) - n ≡ suc k = ground (arith, size, left, all) in
            rw (l, step) (ap (drop 1) joined ∙ drop_one k (xs ++ x ∷ []))
        | inr l ↦
            let step : length (xs ++ x ∷ []) - n ≡ k = ground (arith, size, left, all) in
            rw (l, step) joined
      ]

module _ {ℓ κ} {A : Type ℓ} {B : Type κ} (f : A → B) where
  pub length-map : (xs : List A) → length (map f xs) ≡ length xs
  length-map [] = refl
  length-map (x ∷ xs) = omega (arith, length-map xs)

  map-snoc : (xs : List A) (x : A) → map f (xs ++ x ∷ []) ≡ map f xs ++ f x ∷ []
  map-snoc [] x = refl
  map-snoc (y ∷ xs) x = ap (λ ys. f y ∷ ys) (map-snoc xs x)

  map-drop_one : (xs : List A) → drop 1 (map f xs) ≡ map f (drop 1 xs)
  map-drop_one [] = refl
  map-drop_one (x ∷ xs) = refl

  pub push-map : (n : ℕ) (xs : List A) (x : A) → push n (map f xs) (f x) ≡ map f (push n xs x)
  unfolding push
  push-map n xs x =
      let same = map-snoc xs x in
      let size = length-map (xs ++ x ∷ []) in
      elim (Bool-cases (ltb n (length (xs ++ x ∷ [])))) [
        | inl l ↦ rw (← same, size, l) (map-drop_one (xs ++ x ∷ []))
        | inr l ↦ rw (← same, size, l) refl
      ]
