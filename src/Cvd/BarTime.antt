-- ===== src/Cvd/BarTime.antt =====
-- The alignment of bars (`bar_start`).
use deltaengine.Prelude.{
  ℕ, ◌+◌, ◌*◌, ◌%◌, ◌≤◌, ◌<◌, String, some, ok, Returns, ◌≡◌, ◌⊎◌, inl, inr, sym, subst, arith,
}
use deltaengine.Trades.{Time}
use deltaengine.Cvd.{timeframe_seconds, floor_to, bar_start}

abbrev pub IsTimeframe : ℕ → Type 0
IsTimeframe n = (n ≡ 1) ⊎ (n ≡ 60) ⊎ (n ≡ 300) ⊎ (n ≡ 900) ⊎ (n ≡ 3600) ⊎ (n ≡ 14400) ⊎ (n ≡ 86400)

pub timeframe_seconds-IsTimeframe :
    (tf : String) {n : ℕ} → timeframe_seconds tf ≡ some n → IsTimeframe n
unfolding timeframe_seconds
timeframe_seconds-IsTimeframe tf h = ground arith

-- A statement about the length of a timeframe is proved at each of the seven.
module _ (P : ℕ → Type 0) (p1 : P 1) (p60 : P 60) (p300 : P 300) (p900 : P 900) (p3600 : P 3600)
    (p14400 : P 14400) (p86400 : P 86400) where
  by_timeframe : (n : ℕ) → IsTimeframe n → P n
  by_timeframe n (inl e) = subst P (sym e) p1
  by_timeframe n (inr (inl e)) = subst P (sym e) p60
  by_timeframe n (inr (inr (inl e))) = subst P (sym e) p300
  by_timeframe n (inr (inr (inr (inl e)))) = subst P (sym e) p900
  by_timeframe n (inr (inr (inr (inr (inl e))))) = subst P (sym e) p3600
  by_timeframe n (inr (inr (inr (inr (inr (inl e)))))) = subst P (sym e) p14400
  by_timeframe n (inr (inr (inr (inr (inr (inr e)))))) = subst P (sym e) p86400

-- What makes a time the start of the bar of length `n` seconds that holds `t`.
abbrev pub IsBarStart : ℕ → Time → Time → Type 0
IsBarStart n t start = (start % (n * 1_000_000) ≡ 0) × (start ≤ t) × (t < start + n * 1_000_000)

pub floor_to-IsBarStart : (t : Time) (n : ℕ) → IsTimeframe n → IsBarStart n t (floor_to n t)
unfolding floor_to
floor_to-IsBarStart t =
    by_timeframe (λ n. IsBarStart n t (floor_to n t)) (omega arith) (omega arith) (omega arith)
      (omega arith) (omega arith) (omega arith) (omega arith)

pub floor_to_mono : (t u : Time) (n : ℕ) → IsTimeframe n → t ≤ u → floor_to n t ≤ floor_to n u
unfolding floor_to
floor_to_mono t u =
    by_timeframe (λ n. t ≤ u → floor_to n t ≤ floor_to n u) (λ h. omega arith) (λ h. omega arith)
      (λ h. omega arith) (λ h. omega arith) (λ h. omega arith) (λ h. omega arith) (λ h. omega arith)

-- For a known timeframe of `n` seconds `bar_start` raises nothing and returns a whole multiple of
-- the timeframe, at the given time or before it, with the given time less than `n` seconds later.
pub bar_start_aligned :
    (t : Time) (tf : String) {n : ℕ}
    → timeframe_seconds tf ≡ some n
    → Returns (IsBarStart n t) (bar_start t tf)
unfolding bar_start
bar_start_aligned t tf {n} h =
    rw (h, Returns) (floor_to-IsBarStart t n (timeframe_seconds-IsTimeframe tf h))

-- For a known timeframe, a later time is never in an earlier bar.
pub bar_start_mono :
    (t u : Time) (tf : String) {n b c : ℕ}
    → timeframe_seconds tf ≡ some n
    → bar_start t tf ≡ ok b
    → bar_start u tf ≡ ok c
    → t ≤ u
    → b ≤ c
unfolding bar_start
bar_start_mono t u tf {n} h p q le =
    ground (arith, floor_to_mono t u n (timeframe_seconds-IsTimeframe tf h) le)
