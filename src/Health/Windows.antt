-- ===== src/Health/Windows.antt =====
-- The rises of a counter that a window of time holds, and the prune that keeps them.
use deltaengine.Prelude.{
  ℕ, ◌≤◌, ◌+◌, ◌*◌, List, [], ◌∷◌, ◌++◌, Option, some, Bool, true, false, pos, ltb, leb, ltb_ℤ,
  if◌then◌else◌, All, ◌≡◌, refl, sym, ap, inl, inr, Bool-cases, on_if, arith,
}
use deltaengine.Trades.{Time}
use deltaengine.Health.{floor_between, td_sec, prune, rise}

-- The samples of a counter at which it has risen, with how much.
unfoldable pub rises : Option ℕ → List (Time × ℕ) → List (Time × ℕ)
rises prev [] = []
rises prev ((t, v) ∷ ss) =
    let rest = rises (some v) ss in if ltb 0 (rise prev v) then (t, rise prev v) ∷ rest else rest

-- The time is a second more than the window ago, or longer.
abbrev pub is_older : ℕ → Time → Time → Bool
is_older window now t = leb (t + (window + 1) * 1_000_000) now

-- The age in whole seconds is above the window.
is_older-td_sec :
    (window : ℕ) (now t : Time) → ltb_ℤ (pos window) (td_sec now t) ≡ is_older window now t
unfolding floor_between
is_older-td_sec window now t = ground arith

-- Those that are less than a second more than the window ago.
unfoldable pub within : ℕ → Time → List (Time × ℕ) → List (Time × ℕ)
within window now [] = []
within window now ((t, inc) ∷ es) =
    let rest = within window now es in if is_older window now t then rest else (t, inc) ∷ rest

-- The times do not go back, and the first is not before `last`.
abbrev pub Ascending : Time → List (Time × ℕ) → Type 0
Ascending last [] = Unit
Ascending last ((t, v) ∷ ss) = (last ≤ t) × Ascending t ss

abbrev pub end_of : Time → List (Time × ℕ) → Time
end_of last [] = last
end_of last ((t, v) ∷ ss) = end_of t ss

older :
    (window : ℕ) (now now' t t' : Time)
    → now ≤ now'
    → t' ≤ t
    → is_older window now t ≡ true
    → is_older window now' t' ≡ true
older window now now' t t' h k o = ground arith

-- On ascending times the prune from the front leaves exactly what is within the window.
keep_all :
    (window : ℕ) (now t : Time) (es : List (Time × ℕ))
    → is_older window now t ≡ false
    → Ascending t es
    → within window now es ≡ es
unfolding within
keep_all window now t [] f a = refl
keep_all window now t ((u, inc) ∷ es) f a = elim (Bool-cases (is_older window now u)) [
  | inl o ↦ absurd (let e = older window now now u t (omega arith) a.0 o in cc)
  | inr k ↦ rw k (ap (λ xs. (u, inc) ∷ xs) (keep_all window now u es k a.1))
]

pub prune-within :
    (window : ℕ) (now last : Time) (es : List (Time × ℕ))
    → Ascending last es
    → prune window now es ≡ within window now es
unfolding prune within
prune-within window now last [] a = refl
prune-within window now last ((t, inc) ∷ es) a = elim (Bool-cases (is_older window now t)) [
  | inl o ↦ rw (is_older-td_sec window now t, o) (prune-within window now t es a.1)
  | inr k ↦
      rw (is_older-td_sec window now t, k)
        (ap (λ xs. (t, inc) ∷ xs) (sym (keep_all window now t es k a.1)))
]

pub within-append :
    (window : ℕ) (now : Time) (es fs : List (Time × ℕ))
    → within window now (es ++ fs) ≡ within window now es ++ within window now fs
unfolding within
within-append window now [] fs = refl
within-append window now ((t, inc) ∷ es) fs = ground (arith, within-append window now es fs)

-- What has left the window stays outside.
pub within-within :
    (window : ℕ) (now now' : Time) (es : List (Time × ℕ))
    → now ≤ now'
    → within window now' (within window now es) ≡ within window now' es
unfolding within
within-within window now now' [] h = refl
within-within window now now' ((t, inc) ∷ es) h = elim (Bool-cases (is_older window now t)) [
  | inl o ↦ rw (o, older window now now' t t h (omega arith) o) (within-within window now now' es h)
  | inr k ↦ rw k (ground (arith, within-within window now now' es h))
]

-- No time is after `now`.
abbrev pub AreUpTo : Time → List (Time × ℕ) → Type 0
AreUpTo now es = All (λ e. e.0 ≤ now) es

pub AreUpTo-mono :
    (now now' : Time) (es : List (Time × ℕ)) → now ≤ now' → AreUpTo now es → AreUpTo now' es
AreUpTo-mono now now' [] h a = tt
AreUpTo-mono now now' (e ∷ es) h a = (omega (arith, a.0), AreUpTo-mono now now' es h a.1)

pub Ascending-snoc :
    (last now v : ℕ) (es : List (Time × ℕ))
    → last ≤ now
    → AreUpTo now es
    → Ascending last es
    → Ascending last (es ++ (now, v) ∷ [])
Ascending-snoc last now v [] h u a = (h, tt)
Ascending-snoc last now v ((t, inc) ∷ es) h u a = (a.0, Ascending-snoc t now v es u.0 u.1 a.1)

pub within-Ascending :
    (window : ℕ) (now last : Time) (es : List (Time × ℕ))
    → Ascending last es
    → Ascending last (within window now es)
unfolding within
within-Ascending window now last [] a = tt
within-Ascending window now last ((t, inc) ∷ es) a =
    on_if (Ascending last) (is_older window now t) _ _
      (λ _. Ascending-mono last t _ a.0 (within-Ascending window now t es a.1))
      (λ _. (a.0, within-Ascending window now t es a.1))
  where
    Ascending-mono : (a b : Time) (xs : List (Time × ℕ)) → a ≤ b → Ascending b xs → Ascending a xs
    Ascending-mono a b [] h k = tt
    Ascending-mono a b ((t, v) ∷ xs) h k = (omega (arith, k.0), k.1)

pub within-AreUpTo :
    (window : ℕ) (now late : Time) (es : List (Time × ℕ))
    → AreUpTo late es
    → AreUpTo late (within window now es)
unfolding within
within-AreUpTo window now late [] a = tt
within-AreUpTo window now late ((t, inc) ∷ es) a =
    on_if (AreUpTo late) (is_older window now t) _ _ (λ _. within-AreUpTo window now late es a.1)
      (λ _. (a.0, within-AreUpTo window now late es a.1))
