-- ===== src/Mt5/Clients.antt =====
-- The sessions of the server's clients: what each handler does to their number and their buffers.
use deltaengine.Prelude.{
  ℕ, suc, ◌+◌, ◌≤◌, ◌<◌, List, [], ◌∷◌, some, true, false, leb, if◌then◌else◌, ◌==◌, nat_eq,
  nat_eqb_iff, length, All, Dict, keys, contains, Distinct, lookup, insert, erase, ◌≡◌, refl, sym,
  ap, subst, ◌∙◌, ◌⊎◌, inl, inr, Bool-cases, arith,
}
use deltaengine.Mt5.{Message, ClientSession, put_nowait, Mt5Server, count_drop, put_each, mark_each}
use deltaengine.Mt5.Session.{put_nowait-bound}

-- A session of the server: its buffer holds no more than it may, and it has missed at most two
-- ACKs in a row, or its client is one of those that the heartbeat is about to drop.
abbrev pub IsHealthy : ℕ → List ℕ → ℕ × ClientSession → Type 0
IsHealthy maxsize to_drop e =
    (e.1.maxsize ≡ maxsize)
    × (length e.1.buffer ≤ maxsize)
    × ((e.1.consecutive_missed_acks < 3) ⊎ (contains to_drop e.0 ≡ true))

-- A server whose heartbeat is about to drop these clients.
pub record IsValid (v : Mt5Server) (to_drop : List ℕ) : Type 0 where
  pub few : length v.clients ≤ v.max_clients
  pub distinct : Distinct (keys v.clients)
  pub healthy : All (IsHealthy v.max_buffer_messages to_drop) v.clients

module _ {V : Type 0} where
  pub length-insert-le : (k : ℕ) (w : V) (d : Dict ℕ V) → length (insert k w d) ≤ length d + 1
  length-insert-le k w [] = omega arith
  length-insert-le k w ((j, x) ∷ d) = ground (arith, length-insert-le k w d)

  pub length-insert_present :
      (k : ℕ) (w x : V) (d : Dict ℕ V) → lookup k d ≡ some x → length (insert k w d) ≡ length d
  length-insert_present k w x [] e = cc
  length-insert_present k w x ((j, y) ∷ d) e = ground (arith, length-insert_present k w x d)

  pub length-erase-le : (k : ℕ) (d : Dict ℕ V) → length (erase k d) ≤ length d
  length-erase-le k [] = omega arith
  length-erase-le k ((j, y) ∷ d) = ground (arith, length-erase-le k d)

pub put_nowait_keeps :
    (s : ClientSession) (m : Message)
    → ((put_nowait s m).0.maxsize ≡ s.maxsize)
      × ((put_nowait s m).0.consecutive_missed_acks ≡ s.consecutive_missed_acks)
unfolding put_nowait
put_nowait_keeps s m = ground arith

-- The session and the count of dropped messages behind one client of a heartbeat.
abbrev pub missing_of : ClientSession → ClientSession
missing_of s = record s { consecutive_missed_acks = s.consecutive_missed_acks + 1 }

abbrev pub mark_count : Message → ClientSession → ℕ → ℕ
mark_count hb s k =
    if leb 3 (s.consecutive_missed_acks + 1)
    then k
    else count_drop (put_nowait (missing_of s) hb).1 k

module _ (n : ℕ) (ds : List ℕ) where
  pub insert-IsHealthy :
      (k : ℕ) (s : ClientSession) (d : Dict ℕ ClientSession)
      → IsHealthy n ds (k, s)
      → All (IsHealthy n ds) d
      → All (IsHealthy n ds) (insert k s d)
  insert-IsHealthy k s [] h a = (h, tt)
  insert-IsHealthy k s ((j, y) ∷ d) h a = ground (arith, insert-IsHealthy k s d h a.1)

  pub erase-IsHealthy :
      (k : ℕ) (d : Dict ℕ ClientSession) → All (IsHealthy n ds) d → All (IsHealthy n ds) (erase k d)
  erase-IsHealthy k [] a = tt
  erase-IsHealthy k ((j, y) ∷ d) a = ground (arith, erase-IsHealthy k d a.1)

  pub lookup-IsHealthy :
      (k : ℕ) (s : ClientSession) (d : Dict ℕ ClientSession)
      → All (IsHealthy n ds) d
      → lookup k d ≡ some s
      → IsHealthy n ds (k, s)
  lookup-IsHealthy k s [] a e = cc
  lookup-IsHealthy k s ((j, y) ∷ d) a e = ground (arith, lookup-IsHealthy k s d a.1)

  put_nowait-IsHealthy :
      (k : ℕ) (s : ClientSession) (m : Message)
      → IsHealthy n ds (k, s)
      → IsHealthy n ds (k, (put_nowait s m).0)
  put_nowait-IsHealthy k s m (size, bound, missed) =
      let (size', missed') = put_nowait_keeps s m in
      (
        size' ∙ size,
        omega (arith, put_nowait-bound s m),
        subst (λ x. (x < 3) ⊎ (contains ds k ≡ true)) (sym missed') missed,
      )

  pub put_each-IsHealthy :
      (m : Message) (d : Dict ℕ ClientSession) (k : ℕ)
      → All (IsHealthy n ds) d
      → All (IsHealthy n ds) (put_each m d k).0
  unfolding put_each
  put_each-IsHealthy m [] k a = tt
  put_each-IsHealthy m ((c, s) ∷ d) k (h, a) =
      (put_nowait-IsHealthy c s m h, put_each-IsHealthy m d (count_drop (put_nowait s m).1 k) a)

  -- What is to be dropped may be listed with more.
  pub mark_each-IsHealthy :
      (hb : Message) (d : Dict ℕ ClientSession) (k : ℕ)
      → All (IsHealthy n []) d
      → ((c : ℕ) → contains (mark_each hb d k).1 c ≡ true → contains ds c ≡ true)
      → All (IsHealthy n ds) (mark_each hb d k).0
  unfolding mark_each
  mark_each-IsHealthy hb [] k a h = tt
  mark_each-IsHealthy hb ((c, s) ∷ d) k ((size, bound, missed), a) h =
      elim (Bool-cases (leb 3 (s.consecutive_missed_acks + 1))) [
        | inl l ↦ rw l (
          (size, bound, inr (h c (rw l (ground (arith, nat_eqb_iff c c))))),
          mark_each-IsHealthy hb d k a (λ x e. h x (rw l (ground (arith, e)))),
        )
        | inr l ↦ rw l (
          put_nowait-IsHealthy c (missing_of s) hb (size, bound, inl (ground arith)),
          mark_each-IsHealthy hb d _ a (λ x e. h x (rw l e)),
        )
      ]

pub length-put_each :
    (m : Message) (d : Dict ℕ ClientSession) (k : ℕ) → length (put_each m d k).0 ≡ length d
unfolding put_each
length-put_each m [] k = refl
length-put_each m ((c, s) ∷ d) k = ap suc (length-put_each m d (count_drop (put_nowait s m).1 k))

pub keys-put_each :
    (m : Message) (d : Dict ℕ ClientSession) (k : ℕ) → keys (put_each m d k).0 ≡ keys d
unfolding put_each
keys-put_each m [] k = refl
keys-put_each m ((c, s) ∷ d) k =
    ap (λ cs. c ∷ cs) (keys-put_each m d (count_drop (put_nowait s m).1 k))

pub keys-mark_each :
    (hb : Message) (d : Dict ℕ ClientSession) (k : ℕ) → keys (mark_each hb d k).0 ≡ keys d
unfolding mark_each
keys-mark_each hb [] k = refl
keys-mark_each hb ((c, s) ∷ d) k = ap (λ cs. c ∷ cs) (keys-mark_each hb d (mark_count hb s k))

pub length-mark_each :
    (hb : Message) (d : Dict ℕ ClientSession) (k : ℕ) → length (mark_each hb d k).0 ≡ length d
unfolding mark_each
length-mark_each hb [] k = refl
length-mark_each hb ((c, s) ∷ d) k = ap suc (length-mark_each hb d (mark_count hb s k))

-- Once a client is dropped, it is not waited for any more.
unlisted-IsHealthy :
    (n c : ℕ) (ds : List ℕ) (d : Dict ℕ ClientSession)
    → contains (keys d) c ≡ false
    → All (IsHealthy n (c ∷ ds)) d
    → All (IsHealthy n ds) d
unlisted-IsHealthy n c ds [] u a = tt
unlisted-IsHealthy n c ds ((j, s) ∷ d) u ((size, bound, kept), a) = (
  (size, bound, ground (arith, u, kept, nat_eqb_iff c j, nat_eqb_iff j c)),
  unlisted-IsHealthy n c ds d (ground (arith, u)) a,
)

pub erase_dropped-IsHealthy :
    (n c : ℕ) (ds : List ℕ) (d : Dict ℕ ClientSession)
    → Distinct (keys d)
    → All (IsHealthy n (c ∷ ds)) d
    → All (IsHealthy n ds) (erase c d)
erase_dropped-IsHealthy n c ds [] u a = tt
erase_dropped-IsHealthy n c ds ((j, s) ∷ d) u ((size, bound, kept), a) =
    elim (Bool-cases (j == c)) [
      | inl e ↦
          let same : j ≡ c = (nat_eqb_iff j c).0 e in
          rw e (unlisted-IsHealthy n c ds d (subst (λ x. contains (keys d) x ≡ false) same u.0) a)
      | inr e ↦ rw e (
        (size, bound, ground (arith, e, kept, nat_eqb_iff c j, nat_eqb_iff j c)),
        erase_dropped-IsHealthy n c ds d u.1 a,
      )
    ]
