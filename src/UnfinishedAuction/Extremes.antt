-- ===== src/UnfinishedAuction/Extremes.antt =====
-- What an event of an unfinished auction says of the bar.
use deltaengine.Prelude.{
  ℕ, ◌+◌, ◌*◌, ◌≤◌, List, [], ◌∷◌, map, Option, none, some, Bool, true, false, ◌&&◌, Decimal, pos,
  ◌≤ℤ◌, ◌<ℤ◌, sym, subst, ◌*ℤ◌, negsuc, ltb_ℤ, leb_ℤ, ◌==◌, int_eq, ok, Returns, Returns-bind,
  ◌>>=◌, All, *ℤ-pos, ◌≡◌, refl, ◌⊎◌, inl, inr, on_if, arith,
}
use deltaengine.Trades.{Time, TradeSide, buy, sell}
use deltaengine.Footprint.{PriceLevel, FootprintBar}
use deltaengine.Footprint.Sorting.{Ascending}
use deltaengine.VolumeRef.{Quotient}
use deltaengine.UnfinishedAuction.{
  AuctionEvent, clamp_ratio, smaller, level_event, last_level, first_of, process_levels, process,
}

-- Both sides have traded at the level, at least the volume.
abbrev pub IsUnfinished : Decimal → PriceLevel → Type 0
IsUnfinished v l = (v ≤ℤ l.buy_volume) × (v ≤ℤ l.sell_volume)

-- A quotient between a quarter and one.
pub record IsStrength (q : Quotient) : Type 0 where
  pub quarter : pos q.denominator ≤ℤ q.numerator *ℤ pos 4
  pub one : q.numerator ≤ℤ pos q.denominator

-- The event is about the level.
pub record IsAbout (v : Decimal) (l : PriceLevel) (e : AuctionEvent) : Type 0 where
  pub unfinished : IsUnfinished v l
  pub price : e.price ≡ l.price
  pub bid : e.bid ≡ l.buy_volume
  pub ask : e.ask ≡ l.sell_volume
  pub strength : IsStrength e.strength

clamp_pos-IsStrength : (k d : ℕ) → 1 ≤ d → d ≤ k * 4 → IsStrength (clamp_ratio (pos k) (pos d))
unfolding clamp_ratio
clamp_pos-IsStrength k d h l =
    let above : ltb_ℤ (pos d) (pos 0) ≡ false = ground arith in
    let positive : ltb_ℤ (pos k) (pos 0) ≡ false = ground arith in
    rw (above, positive)
      (on_if IsStrength (ltb_ℤ (pos (d + 0)) (pos k)) _ _
        (λ _. record { quarter = rw (*ℤ-pos 1 4) (omega arith); one = omega arith })
        (λ b. record { quarter = rw (*ℤ-pos k 4) (omega arith); one = ground arith }))

clamp_ratio-IsStrength :
    (a : Decimal) (n : ℕ) → 1 ≤ n → pos n ≤ℤ a → IsStrength (clamp_ratio a (pos n *ℤ pos 4))
clamp_ratio-IsStrength (negsuc k) n h l = absurd (omega arith)
clamp_ratio-IsStrength (pos k) n h l =
    rw (*ℤ-pos n 4) (clamp_pos-IsStrength k (n * 4) (omega arith) (omega arith))

-- What a call says of one level.
abbrev LevelOutcome : Decimal → PriceLevel → TradeSide → Bool → Option AuctionEvent → Type 0
LevelOutcome v l side at_high none = ¬ IsUnfinished v l
LevelOutcome v l side at_high (some e) = IsAbout v l e × (e.side ≡ side) × (e.at_high ≡ at_high)

level_event_outcome :
    (n : ℕ) (time : Time) (side : TradeSide) (at_high : Bool) (l : PriceLevel)
    → 1 ≤ n
    → Returns (LevelOutcome (pos n) l side at_high) (level_event (pos n) time side at_high l)
unfolding level_event
level_event_outcome n time side at_high l h =
    on_if (Returns (LevelOutcome (pos n) l side at_high))
      (leb_ℤ (pos n) l.buy_volume && leb_ℤ (pos n) l.sell_volume) _ _
      (λ both.
        on_if (Returns (LevelOutcome (pos n) l side at_high)) (pos n == pos 0) _ _
          (λ z. absurd (ground arith))
          (λ _.
            let two : IsUnfinished (pos n) l = ground arith in
            let least : pos n ≤ℤ smaller l.buy_volume l.sell_volume = ground arith in
            (
              record {
                unfinished = two;
                price = refl;
                bid = refl;
                ask = refl;
                strength = clamp_ratio-IsStrength (smaller l.buy_volume l.sell_volume) n h least;
              },
              refl,
              refl,
            )))
      (λ f u. ground arith)

-- The highest and the lowest price of the levels.
abbrev pub IsHighest : Decimal → List PriceLevel → Type 0
IsHighest p ls = All (λ l. l.price ≤ℤ p) ls

abbrev pub IsLowest : Decimal → List PriceLevel → Type 0
IsLowest p ls = All (λ l. p ≤ℤ l.price) ls

last-IsHighest :
    (l : PriceLevel) (ls : List PriceLevel)
    → Ascending (map (λ k. k.price) (l ∷ ls))
    → IsHighest (last_level l ls).price (l ∷ ls)
last-IsHighest l [] a = (omega arith, tt)
last-IsHighest l (k ∷ ls) a =
    let rest = last-IsHighest k ls a.1 in (omega (arith, a.0.0, rest.0), rest)

first-IsLowest :
    (l : PriceLevel) (ls : List PriceLevel)
    → Ascending (map (λ k. k.price) (l ∷ ls))
    → IsLowest l.price (l ∷ ls)
first-IsLowest l ls a = (omega arith, below ls a.0)
  where
    below :
        (ks : List PriceLevel)
        → All (λ q. l.price <ℤ q) (map (λ k. k.price) ks)
        → IsLowest l.price ks
    below [] h = tt
    below (k ∷ ks) h = (omega (arith, h.0), below ks h.1)

-- What a call returns for levels that begin with `bot`.
abbrev pub Outcome : Decimal → PriceLevel → List PriceLevel → Option AuctionEvent → Type 0
Outcome v bot ls none = (¬ IsUnfinished v (last_level bot ls)) × (¬ IsUnfinished v bot)
Outcome v bot ls (some e) =
    (IsAbout v (last_level bot ls) e × (e.side ≡ buy) × IsHighest e.price (bot ∷ ls))
    ⊎ ((¬ IsUnfinished v (last_level bot ls))
        × IsAbout v bot e
        × (e.side ≡ sell)
        × IsLowest e.price (bot ∷ ls))

first_of-Outcome :
    (v : Decimal) (bot : PriceLevel) (ls : List PriceLevel) (high low : Option AuctionEvent)
    → Ascending (map (λ k. k.price) (bot ∷ ls))
    → LevelOutcome v (last_level bot ls) buy true high
    → LevelOutcome v bot sell false low
    → Outcome v bot ls (first_of high low)
first_of-Outcome v bot ls (some e) low a h l =
    inl (h.0, h.1, subst (λ p. IsHighest p (bot ∷ ls)) (sym h.0.price) (last-IsHighest bot ls a))
first_of-Outcome v bot ls none none a h l = (h, l)
first_of-Outcome v bot ls none (some e) a h l =
    inr (h, l.0, l.1, subst (λ p. IsLowest p (bot ∷ ls)) (sym l.0.price) (first-IsLowest bot ls a))

-- For a bar whose levels ascend in price, and are not none, and a volume of at least 1, `process`
-- raises nothing. It returns an event of the highest level, as BUY, if both sides have traded the
-- volume there; or else of the lowest level, as SELL, if both have traded it there; or else none.
-- The event's price is the highest, or the lowest, of all levels, and its strength lies between a
-- quarter and one.
pub process-Outcome :
    (n : ℕ) (bar : FootprintBar) (bot : PriceLevel) (ls : List PriceLevel)
    → 1 ≤ n
    → bar.levels ≡ bot ∷ ls
    → Ascending (map (λ k. k.price) (bot ∷ ls))
    → Returns (Outcome (pos n) bot ls) (process (pos n) bar)
unfolding process process_levels
process-Outcome n bar bot ls h e a =
    let time = bar.bar_time in
    let low = level_event (pos n) time sell false bot in
    rw e (
      Returns-bind _ _ (level_event (pos n) time buy true (last_level bot ls))
        (λ high. low >>= (λ l. ok (first_of high l)))
        (level_event_outcome n time buy true (last_level bot ls) h)
        (λ high o.
          Returns-bind _ _ low (λ l. ok (first_of high l))
            (level_event_outcome n time sell false bot h)
            (λ l p. first_of-Outcome (pos n) bot ls high l a o p)))
