-- ===== src/EventQueue.antt =====
-- The bounded queue between pipeline stages (src/acquisition/event_queue.py), over any item type.
-- `asyncio.Queue` is a list of at most `maxsize` items; a call that would wait returns `none`.
pub mod Interleaving
pub mod Overflow
pub mod Sink
use deltaengine.Prelude.{
  ℕ, ◌+◌, List, [], ◌∷◌, ◌++◌, Option, none, some, Bool, true, false, not, ◌||◌, ◌&&◌, String, ltb,
  leb, if◌then◌else◌, ◌==◌, string_eq, length, Result, ok, raise, value_error,
}

-- `DROP_OLDEST_LOG` and `BLOCK`.
abbrev pub drop_oldest_log : String
drop_oldest_log = "drop_oldest_log"

abbrev pub block : String
block = "block"

pub record BoundedEventQueue {ℓ} (A : Type ℓ) : Type ℓ where
  pub items : List A
  pub maxsize : ℕ
  pub overflow_policy : String
  pub overflow_count : ℕ

-- `BoundedEventQueue.__init__`
unfoldable pub new_queue {ℓ} : {A : Type ℓ} → ℕ → String → Result (BoundedEventQueue A)
new_queue maxsize policy =
    if ltb maxsize 1
    then raise value_error
    else if not (policy == drop_oldest_log || policy == block)
    then raise value_error
    else ok (record { items = []; maxsize = maxsize; overflow_policy = policy; overflow_count = 0 })

module _ {ℓ} {A : Type ℓ} where
  unfoldable pub full : BoundedEventQueue A → Bool
  full q = leb q.maxsize (length q.items)

  -- `get_nowait` in `put`, where `QueueEmpty` is passed over.
  unfoldable pub without_oldest : List A → List A
  without_oldest [] = []
  without_oldest (x ∷ xs) = xs

  -- The part of `put` for the policy `DROP_OLDEST_LOG`.
  unfoldable pub put_dropping : BoundedEventQueue A → A → BoundedEventQueue A
  unfolding full without_oldest
  put_dropping q x =
      if full q
      then record q {
        items = without_oldest q.items ++ x ∷ [];
        overflow_count = q.overflow_count + 1;
      }
      else record q { items = q.items ++ x ∷ [] }

  -- `put`: under `BLOCK` a put into a full queue waits for a `get`.
  unfoldable pub put : BoundedEventQueue A → A → Option (BoundedEventQueue A)
  unfolding full put_dropping
  put q x =
      if q.overflow_policy == block
      then (if full q then none else some (record q { items = q.items ++ x ∷ [] }))
      else some (put_dropping q x)

  -- `get`: on an empty queue it waits.
  unfoldable pub get : BoundedEventQueue A → Option (A × BoundedEventQueue A)
  get q = elim q.items [ [] ↦ none | x ∷ xs ↦ some (x, record q { items = xs }) ]
