-- ===== src/EventQueue/Overflow.antt =====
-- What the queue keeps and what it counts as lost under its policy that drops.
use deltaengine.Prelude.{
  ℕ, zero, suc, ◌+◌, ◌-◌, ◌≤◌, ◌<◌, List, [], ◌∷◌, ◌++◌, some, leb, string_eq, length,
  length-append, length-drop, drop, ◌≡◌, inl, inr, refl, sym, ap, ◌∙◌, Bool-cases, arith,
}
use mathlib.Core.List.{append-nil, append_assoc}
use deltaengine.EventQueue.{BoundedEventQueue, full, without_oldest, put_dropping, put}

module _ {ℓ} {A : Type ℓ} where
  -- The queue has room for an item at least, and holds no more than it may.
  pub record IsValid (q : BoundedEventQueue A) : Type 0 where
    pub positive : 1 ≤ q.maxsize
    pub bounded : length q.items ≤ q.maxsize

  pub length-without_oldest : (xs : List A) → length (without_oldest xs) ≡ length xs - 1
  unfolding without_oldest
  length-without_oldest [] = omega arith
  length-without_oldest (x ∷ xs) = omega arith

  pub put_dropping-IsValid :
      (q : BoundedEventQueue A) (x : A) → IsValid q → IsValid (put_dropping q x)
  unfolding put_dropping full
  put_dropping-IsValid q x h = ground (
    arith,
    length-append (without_oldest q.items) (x ∷ []),
    length-append q.items (x ∷ []),
    length-without_oldest q.items,
  )

  pub put_dropping-counts :
      (q : BoundedEventQueue A) (x : A)
      → IsValid q
      → length (put_dropping q x).items + (put_dropping q x).overflow_count
        ≡ length q.items + q.overflow_count + 1
  unfolding put_dropping full
  put_dropping-counts q x h = ground (
    arith,
    length-append (without_oldest q.items) (x ∷ []),
    length-append q.items (x ∷ []),
    length-without_oldest q.items,
  )

  -- A put that does not wait keeps the queue within its size; so does a get.
  pub put-IsValid :
      (q : BoundedEventQueue A) (x : A) {q' : BoundedEventQueue A}
      → IsValid q
      → put q x ≡ some q'
      → IsValid q'
  unfolding put full
  put-IsValid q x h e = ground (arith, put_dropping-IsValid q x h, length-append q.items (x ∷ []))

  -- The puts of a producer under `DROP_OLDEST_LOG`, with no get between them.
  unfoldable pub put_all : BoundedEventQueue A → List A → BoundedEventQueue A
  put_all q [] = q
  put_all q (x ∷ xs) = put_all (put_dropping q x) xs

  -- The last `n` items of a list.
  abbrev pub newest : ℕ → List A → List A
  newest n xs = drop (length xs - n) xs

  drop_snoc :
      (k : ℕ) (xs : List A) (x : A)
      → k < length xs
      → drop (suc k) (xs ++ x ∷ []) ≡ without_oldest (drop k xs) ++ x ∷ []
  unfolding without_oldest
  drop_snoc k [] x h = absurd (omega arith)
  drop_snoc zero (y ∷ xs) x h = refl
  drop_snoc (suc k) (y ∷ xs) x h = drop_snoc k xs x (omega arith)

  newest_snoc_full :
      (n : ℕ) (xs : List A) (x : A)
      → 1 ≤ n
      → n ≤ length xs
      → newest n (xs ++ x ∷ []) ≡ without_oldest (newest n xs) ++ x ∷ []
  newest_snoc_full n xs x p h =
      let k : length (xs ++ x ∷ []) - n ≡ suc (length xs - n) =
        omega (arith, length-append xs (x ∷ [])) in
      rw k (drop_snoc (length xs - n) xs x (omega arith))

  newest_short : (n : ℕ) (xs : List A) → length xs ≤ n → newest n xs ≡ xs
  newest_short n xs h = let k : length xs - n ≡ 0 = omega arith in rw k

  -- The queue, of size `n`, holds the newest items of a history, and has counted the others.
  record Shows (n : ℕ) (q : BoundedEventQueue A) (base : ℕ) (history : List A) : Type ℓ where
    size : q.maxsize ≡ n
    items : q.items ≡ newest n history
    counted : q.overflow_count ≡ base + (length history - n)

  put_dropping-Shows :
      (n : ℕ) (q : BoundedEventQueue A) (base : ℕ) (history : List A) (x : A)
      → 1 ≤ n
      → Shows n q base history
      → Shows n (put_dropping q x) base (history ++ x ∷ [])
  unfolding put_dropping full
  put_dropping-Shows n q base history x pos h =
      let length_items : length q.items ≡ length history - (length history - n) =
        ap length h.items ∙ length-drop (length history - n) history in
      let length_history = length-append history (x ∷ []) in
      elim (Bool-cases (leb q.maxsize (length q.items))) [
        | inl f ↦
            let fills : n ≤ length history = ground (arith, h.size) in
            rw f (record {
              size = h.size;
              items = rw h.items (sym (newest_snoc_full n history x pos fills));
              counted = omega (arith, h.counted);
            })
        | inr f ↦
            let fits : length history + 1 ≤ n = ground (arith, h.size) in
            rw f (record {
              size = h.size;
              items =
                  ap (λ xs. xs ++ x ∷ []) (h.items ∙ newest_short n history (omega arith))
                  ∙ sym (newest_short n (history ++ x ∷ []) (omega arith));
              counted = omega (arith, h.counted);
            })
      ]

  put_all-Shows :
      (n : ℕ) (xs : List A) (q : BoundedEventQueue A) (base : ℕ) (history : List A)
      → 1 ≤ n
      → Shows n q base history
      → Shows n (put_all q xs) base (history ++ xs)
  unfolding put_all
  put_all-Shows n [] q base history pos h = rw append-nil h
  put_all-Shows n (x ∷ xs) q base history pos h = rw (← append_assoc history (x ∷ []) xs) (
      put_all-Shows n xs (put_dropping q x) base (history ++ x ∷ []) pos
        (put_dropping-Shows n q base history x pos h))

  -- However many items are put while nobody gets, under the policy that drops, a valid queue holds
  -- exactly the newest `maxsize` of its old items followed by the new ones, in their order, and
  -- `overflow_count` has gone up by exactly the number of the others.
  pub put_all-newest :
      (xs : List A) (q : BoundedEventQueue A)
      → IsValid q
      → ((put_all q xs).items ≡ newest q.maxsize (q.items ++ xs))
        × ((put_all q xs).overflow_count ≡ q.overflow_count + (length (q.items ++ xs) - q.maxsize))
  put_all-newest xs q h =
      let none_lost : length q.items - q.maxsize ≡ 0 = omega (arith, h.bounded) in
      let start : Shows q.maxsize q q.overflow_count q.items = record {
        size = refl;
        items = sym (newest_short q.maxsize q.items h.bounded);
        counted = omega arith;
      } in
      let end = put_all-Shows q.maxsize xs q q.overflow_count q.items h.positive start in
      (end.items, end.counted)
