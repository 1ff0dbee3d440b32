-- ===== src/Footprint/Stream.antt =====
-- A whole stream of trades through the calculator: nothing is raised, no trade is lost from the
-- counters, and at every price the tables keep the volume of each side.
use deltaengine.Prelude.{
  ℕ, ◌+◌, List, [], ◌∷◌, none, some, true, false, not, ◌&&◌, String, Decimal, ℤ, pos, ◌+ℤ◌, leb_ℤ,
  if◌then◌else◌, int_eq, nat_eq, length, ok, Returns, Returns-mono, ◌≡◌, refl, inl, inr, Bool-cases,
  Option-cases, arith, int_laws, sum_by, sum_opt,
}
use deltaengine.Trades.{Time, is_valid_side}
use deltaengine.Cvd.{timeframe_seconds, floor_to, bar_start}
use deltaengine.Footprint.{
  FootprintTrade, FootprintBar, FootprintCalculator, initial, roll_bar, closed_bar, to_bar, advance,
  process_trade, finalize,
}
use deltaengine.Footprint.Levels.{to_levels_volumes, add-IsTable}
use deltaengine.Footprint.Volumes.{
  is_accepted, accepted, bought, sold, open_bought, open_sold, listed_bought, listed_sold, IsOpen,
  rejected, keep, feed, sum_by-keep, roll_bar-IsOpen, roll_bar_volumes, add_volumes,
}

-- How the loop moves on from a calculator and its bars, over trades of which it takes some.
pub record Tracks (n : ℕ) (p : Decimal) (c : FootprintCalculator) (bars : List FootprintBar)
    (trades taken : List FootprintTrade) (c' : FootprintCalculator) (bars' : List FootprintBar)
    : Type 0 where
  pub known : timeframe_seconds c'.timeframe ≡ some n
  pub table : IsOpen c'.bar
  pub bought :
      sum_by (listed_bought p) bars' +ℤ open_bought p c'.bar
      ≡ sum_by (listed_bought p) bars +ℤ open_bought p c.bar +ℤ sum_by (bought p) taken
  pub sold :
      sum_by (listed_sold p) bars' +ℤ open_sold p c'.bar
      ≡ sum_by (listed_sold p) bars +ℤ open_sold p c.bar +ℤ sum_by (sold p) taken
  pub processed : c'.processed ≡ c.processed + length taken
  pub rejections : rejected c' + length taken ≡ rejected c + length trades

advance_volumes :
    (c : FootprintCalculator) (t : FootprintTrade) (start : Time) (p : Decimal)
    → IsOpen c.bar
    → let r = advance c t start in
      (sum_opt (listed_bought p) r.1 +ℤ open_bought p r.0.bar ≡ open_bought p c.bar +ℤ bought p t)
      × (sum_opt (listed_sold p) r.1 +ℤ open_sold p r.0.bar ≡ open_sold p c.bar +ℤ sold p t)
unfolding advance
advance_volumes c t start p h =
    let roll = roll_bar_volumes c.bar start c.symbol c.timeframe p h in
    let put = add_volumes (roll_bar c.bar start).0 t p in
    (grind (int_laws, roll, put), grind (int_laws, roll, put))

-- What is kept and what is open, after one step and then the rest.
step_sum :
    (total kept closed listed before after x rest : ℤ)
    → total ≡ kept +ℤ after +ℤ rest
    → closed +ℤ after ≡ before +ℤ x
    → kept ≡ listed +ℤ closed
    → total ≡ listed +ℤ before +ℤ (x +ℤ rest)
step_sum total kept closed listed before after x rest h m k = grind (int_laws, h, m, k)

Tracks-accept :
    (n : ℕ) (p : Decimal) (c : FootprintCalculator) (bars : List FootprintBar) (t : FootprintTrade)
    (trades taken : List FootprintTrade) (c' : FootprintCalculator) (bars' : List FootprintBar)
    → IsOpen c.bar
    → let r = advance c t (floor_to n t.event_time) in
      Tracks n p r.0 (keep bars r.1) trades taken c' bars'
      → Tracks n p c bars (t ∷ trades) (t ∷ taken) c' bars'
unfolding advance
Tracks-accept n p c bars t trades taken c' bars' o h =
    let r = advance c t (floor_to n t.event_time) in
    let moved = advance_volumes c t (floor_to n t.event_time) p o in
    let buys = sum_by-keep (listed_bought p) bars r.1 in
    let sells = sum_by-keep (listed_sold p) bars r.1 in
    record {
      known = h.known;
      table = h.table;
      bought = step_sum _ _ _ _ _ _ _ _ h.bought moved.0 buys;
      sold = step_sum _ _ _ _ _ _ _ _ h.sold moved.1 sells;
      processed = omega (arith, h.processed);
      rejections = omega (arith, h.rejections);
    }

advance-IsOpen :
    (c : FootprintCalculator) (t : FootprintTrade) (start : Time)
    → IsOpen c.bar
    → IsOpen (advance c t start).0.bar
unfolding advance
advance-IsOpen c t start o =
    add-IsTable (roll_bar c.bar start).0 t.price t.quantity t.side (roll_bar-IsOpen c.bar start o)

-- The calculator after a rejected trade: one counter is higher.
abbrev pub count_rejected : FootprintCalculator → FootprintTrade → FootprintCalculator
count_rejected c t =
    let fit = is_valid_side t.side && not (leb_ℤ t.price (pos 0)) in
    record c {
      duplicates = c.duplicates + (if fit then 1 else 0);
      rejected_invalid = c.rejected_invalid + (if fit then 0 else 1);
    }

pub process_trade_accepts :
    (n : ℕ) (c : FootprintCalculator) (t : FootprintTrade)
    → timeframe_seconds c.timeframe ≡ some n
    → is_accepted c.seen_ids t ≡ true
    → process_trade c t ≡ ok (advance c t (floor_to n t.event_time))
unfolding process_trade bar_start
process_trade_accepts n c t k a = ground arith

process_trade_rejects :
    (c : FootprintCalculator) (t : FootprintTrade)
    → is_accepted c.seen_ids t ≡ false
    → process_trade c t ≡ ok (count_rejected c t, none)
unfolding process_trade
process_trade_rejects c t a = ground arith

Tracks-reject :
    (n : ℕ) (p : Decimal) (c : FootprintCalculator) (bars : List FootprintBar) (t : FootprintTrade)
    (trades taken : List FootprintTrade) (c' : FootprintCalculator) (bars' : List FootprintBar)
    → Tracks n p (count_rejected c t) bars trades taken c' bars'
    → Tracks n p c bars (t ∷ trades) taken c' bars'
Tracks-reject n p c bars t trades taken c' bars' h =
    elim (Bool-cases (is_valid_side t.side && not (leb_ℤ t.price (pos 0)))) [
      | inl e ↦ ground (arith, rw e at h)
      | inr e ↦ ground (arith, rw e at h)
    ]

feed-Tracks :
    (n : ℕ) (p : Decimal) (trades : List FootprintTrade) (c : FootprintCalculator)
    (bars : List FootprintBar)
    → timeframe_seconds c.timeframe ≡ some n
    → IsOpen c.bar
    → Returns
        (λ r. Tracks n p c bars trades (accepted c.seen_ids trades) r.0 r.1)
        (feed c bars trades)
unfolding feed accepted advance
feed-Tracks n p [] c bars k o = record {
  known = k;
  table = o;
  bought = omega int_laws;
  sold = omega int_laws;
  processed = omega arith;
  rejections = omega arith;
}
feed-Tracks n p (t ∷ trades) c bars k o = elim (Bool-cases (is_accepted c.seen_ids t)) [
  | inl a ↦
      let r = advance c t (floor_to n t.event_time) in
      rw (process_trade_accepts n c t k a, a)
        (Returns-mono (feed r.0 (keep bars r.1) trades)
          (λ q. Tracks-accept n p c bars t trades _ q.0 q.1 o)
          (feed-Tracks n p trades r.0 (keep bars r.1) k
            (advance-IsOpen c t (floor_to n t.event_time) o)))
  | inr a ↦
      rw (process_trade_rejects c t a, a)
        (Returns-mono (feed (count_rejected c t) bars trades)
          (λ q. Tracks-reject n p c bars t trades _ q.0 q.1)
          (feed-Tracks n p trades (count_rejected c t) bars k o))
]

-- What a result keeps of the trades and of those among them that were taken, at a price.
pub record Keeps (p : Decimal) (trades taken : List FootprintTrade) (c : FootprintCalculator)
    (bars : List FootprintBar) : Type 0 where
  pub bought : sum_by (listed_bought p) bars ≡ sum_by (bought p) taken
  pub sold : sum_by (listed_sold p) bars ≡ sum_by (sold p) taken
  pub processed : c.processed ≡ length taken
  pub counted : c.rejected_invalid + c.duplicates + length taken ≡ length trades

finalize_volumes :
    (c : FootprintCalculator) (p : Decimal)
    → IsOpen c.bar
    → (sum_opt (listed_bought p) (finalize c).1 ≡ open_bought p c.bar)
      × (sum_opt (listed_sold p) (finalize c).1 ≡ open_sold p c.bar)
unfolding finalize closed_bar to_bar
finalize_volumes c p o = elim (Option-cases c.bar) [
  | inl e ↦ rw e (refl, refl)
  | inr (b, e) ↦ rw e (to_levels_volumes b p (rw e at o))
]

finalize-Keeps :
    (n : ℕ) (p : Decimal) (s tf : String) (trades taken : List FootprintTrade)
    (c : FootprintCalculator) (bars : List FootprintBar)
    → Tracks n p (initial s tf) [] trades taken c bars
    → Keeps p trades taken (finalize c).0 (keep bars (finalize c).1)
unfolding finalize
finalize-Keeps n p s tf trades taken c bars h =
    let last = finalize_volumes c p h.table in
    record {
      bought =
          grind (int_laws, h.bought, last.0, sum_by-keep (listed_bought p) bars (finalize c).1);
      sold = grind (int_laws, h.sold, last.1, sum_by-keep (listed_sold p) bars (finalize c).1);
      processed = omega (arith, h.processed);
      counted = omega (arith, h.rejections);
    }

-- With a known timeframe a new calculator takes any sequence of trades with no exception. After
-- `finalize` the tables of all its bars list at every price exactly the quantity that the
-- accepted trades bought there as buy volume, and exactly the quantity that they sold there as
-- sell volume; `processed` counts the accepted trades, and the two counters of rejections all
-- the others. Accepted are the trades with a valid side, a positive price and an id that no
-- accepted trade before has.
pub feed-Keeps :
    (trades : List FootprintTrade) (s tf : String) (p : Decimal) {n : ℕ}
    → timeframe_seconds tf ≡ some n
    → Returns
        (λ r. Keeps p trades (accepted [] trades) (finalize r.0).0 (keep r.1 (finalize r.0).1))
        (feed (initial s tf) [] trades)
feed-Keeps trades s tf p {n} known =
    Returns-mono (feed (initial s tf) [] trades)
      (λ r. finalize-Keeps n p s tf trades (accepted [] trades) r.0 r.1)
      (feed-Tracks n p trades (initial s tf) [] known tt)
