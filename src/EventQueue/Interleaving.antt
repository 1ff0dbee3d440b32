-- ===== src/EventQueue/Interleaving.antt =====
-- Producers and consumers in any order: what is put, got, held and lost.
use deltaengine.Prelude.{
  ◌+◌, ◌≤◌, List, [], ◌∷◌, ◌++◌, some, true, ◌==◌, string_eq, length, length-append, ◌≡◌, refl, sym,
  ap, ◌∙◌, arith,
}
use mathlib.Core.List.{append-nil, append_assoc}
use text.Mathlib.TextEquality.{eq_iff}
use deltaengine.EventQueue.{BoundedEventQueue, full, without_oldest, put_dropping, put, get, block}
use deltaengine.EventQueue.Overflow.{length-without_oldest}

module _ {ℓ} {A : Type ℓ} where
  -- What a run of producers and consumers has put and got so far, in order, with the queue that
  -- it has reached. A call that would wait makes no step.
  pub data Run (start : BoundedEventQueue A) : BoundedEventQueue A → List A → List A → Type ℓ where
    begins : Run start start [] []
    puts :
        {q q' : BoundedEventQueue A} {ps gs : List A} (x : A)
        → Run start q ps gs
        → put q x ≡ some q'
        → Run start q' (ps ++ x ∷ []) gs
    gets :
        {q q' : BoundedEventQueue A} {ps gs : List A} (x : A)
        → Run start q ps gs
        → get q ≡ some (x, q')
        → Run start q' ps (gs ++ x ∷ [])

  get-eq_some :
      (q q' : BoundedEventQueue A) (x : A)
      → get q ≡ some (x, q')
      → (q.items ≡ x ∷ q'.items)
        × (q'.overflow_count ≡ q.overflow_count)
        × (q'.overflow_policy ≡ q.overflow_policy)
        × (q'.maxsize ≡ q.maxsize)
  unfolding get
  get-eq_some q q' x e = ground arith

  put-eq_some :
      (q q' : BoundedEventQueue A) (x : A)
      → 1 ≤ q.maxsize
      → put q x ≡ some q'
      → (length q'.items + q'.overflow_count ≡ length q.items + q.overflow_count + 1)
        × (q'.maxsize ≡ q.maxsize)
  unfolding put full put_dropping
  put-eq_some q q' x p e = ground (
    arith,
    length-append (without_oldest q.items) (x ∷ []),
    length-append q.items (x ∷ []),
    length-without_oldest q.items,
  )

  put-block :
      (q q' : BoundedEventQueue A) (x : A)
      → (q.overflow_policy == block) ≡ true
      → put q x ≡ some q'
      → (q'.items ≡ q.items ++ x ∷ []) × (q'.overflow_policy ≡ q.overflow_policy)
  unfolding put
  put-block q q' x b e = ground arith

  interleaving_accounts_from :
      {start q : BoundedEventQueue A} {ps gs : List A}
      → 1 ≤ start.maxsize
      → Run start q ps gs
      → (length gs + length q.items + q.overflow_count
          ≡ length start.items + start.overflow_count + length ps)
        × (q.maxsize ≡ start.maxsize)
  interleaving_accounts_from pos begins = (omega arith, refl)
  interleaving_accounts_from pos (puts {q} {q'} {ps} x r e) =
      let (sum, size) = interleaving_accounts_from pos r in
      let (added, same) = put-eq_some q q' x (omega arith) e in
      (omega (arith, length-append ps (x ∷ [])), same ∙ size)
  interleaving_accounts_from pos (gets {q} {q'} {ps} {gs} x r e) =
      let (sum, size) = interleaving_accounts_from pos r in
      let (head, lost, policy, same) = get-eq_some q q' x e in
      (omega (arith, length-append gs (x ∷ []), ap length head), same ∙ size)

  -- Nothing is lost silently, under either policy and however puts and gets interleave: what was
  -- got, what is still queued and what `overflow_count` has counted since add up to what the queue
  -- held at the start and what was put.
  pub interleaving_accounts :
      {start q : BoundedEventQueue A} {ps gs : List A}
      → 1 ≤ start.maxsize
      → Run start q ps gs
      → length gs + length q.items + q.overflow_count
        ≡ length start.items + start.overflow_count + length ps
  interleaving_accounts pos r = (interleaving_accounts_from pos r).0

  block_keeps_order :
      {start q : BoundedEventQueue A} {ps gs : List A}
      → (start.overflow_policy == block) ≡ true
      → Run start q ps gs
      → (gs ++ q.items ≡ start.items ++ ps) × ((q.overflow_policy == block) ≡ true)
  block_keeps_order {start} b begins = (sym (append-nil start.items), b)
  block_keeps_order {start} b (puts {q} {q'} {ps} {gs} x r e) =
      let (fifo, blocks) = block_keeps_order b r in
      let (items, policy) = put-block q q' x blocks e in
      (
        ap (λ xs. gs ++ xs) items
            ∙ sym (append_assoc gs q.items (x ∷ []))
            ∙ ap (λ xs. xs ++ x ∷ []) fifo
            ∙ append_assoc start.items ps (x ∷ []),
        rw policy blocks,
      )
  block_keeps_order b (gets {q} {q'} {ps} {gs} x r e) =
      let (fifo, blocks) = block_keeps_order b r in
      let (head, lost, policy, same) = get-eq_some q q' x e in
      (append_assoc gs (x ∷ []) q'.items ∙ ap (λ xs. gs ++ xs) (sym head) ∙ fifo, rw policy blocks)

  -- Under the policy BLOCK the queue loses nothing and keeps the order, however puts and gets
  -- interleave: the items got, followed by those still queued, are the items that the queue held at
  -- the start followed by those put.
  pub block_is_fifo :
      {start q : BoundedEventQueue A} {ps gs : List A}
      → start.overflow_policy ≡ block
      → Run start q ps gs
      → gs ++ q.items ≡ start.items ++ ps
  block_is_fifo {start} b r = (block_keeps_order ((eq_iff start.overflow_policy block).1 b) r).0
