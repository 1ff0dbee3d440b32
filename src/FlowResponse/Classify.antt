-- ===== src/FlowResponse/Classify.antt =====
-- The classification treats the two sides alike: exchanging buyers and sellers, and turning the move of
-- the price round, exchanges the two sides of the state.
use deltaengine.Prelude.{ℕ, pos, ◌≡◌, refl, ap, minus-minus, size_minus, arith}
use deltaengine.VolumeRef.{Quotient}
use deltaengine.FlowResponse.{
  FlowResponseState, unclear, buy_effective, sell_effective, buy_stalled, sell_stalled, buy_trapped,
  sell_trapped, Pressure, buying, selling, neutral, FlowPriceResponseDetector, negated, absolute,
  respond, classify_side, classify,
}

-- The same with buyers and sellers exchanged.
abbrev pub opposite : Pressure → Pressure
opposite buying = selling
opposite selling = buying
opposite neutral = neutral

abbrev pub mirrored : FlowResponseState → FlowResponseState
mirrored unclear = unclear
mirrored buy_effective = sell_effective
mirrored sell_effective = buy_effective
mirrored buy_stalled = sell_stalled
mirrored sell_stalled = buy_stalled
mirrored buy_trapped = sell_trapped
mirrored sell_trapped = buy_trapped

negated-negated : (q : Quotient) → negated (negated q) ≡ q
unfolding negated
negated-negated q = ground (arith, minus-minus q.numerator)

absolute-negated : (q : Quotient) → absolute (negated q) ≡ absolute q
unfolding negated absolute
absolute-negated q =
    ap (λ n. record { numerator = pos n; denominator = q.denominator }) (size_minus q.numerator)

respond-mirrored :
    (d : FlowPriceResponseDetector) (directed bps bps' : Quotient)
    (effective trapped stalled : FlowResponseState)
    → absolute bps' ≡ absolute bps
    → respond d directed bps' (mirrored effective) (mirrored trapped) (mirrored stalled)
      ≡ mirrored (respond d directed bps effective trapped stalled)
unfolding respond
respond-mirrored d directed bps bps' effective trapped stalled same = rw same (ground arith)

classify_side-mirrored :
    (d : FlowPriceResponseDetector) (side : Pressure) (bps : Quotient)
    → classify_side d (opposite side) (negated bps) ≡ mirrored (classify_side d side bps)
unfolding classify_side
classify_side-mirrored d buying bps = rw (negated-negated bps) (
    respond-mirrored d bps bps (negated bps) buy_effective buy_trapped buy_stalled
      (absolute-negated bps))
classify_side-mirrored d selling bps =
    respond-mirrored d (negated bps) bps (negated bps) sell_effective sell_trapped sell_stalled
      (absolute-negated bps)
classify_side-mirrored d neutral bps = refl

-- A window with buyers and sellers exchanged, and the price moving the other way by as much, is
-- classified as the mirror image of the first, whatever the thresholds.
pub classify-mirrored :
    (d : FlowPriceResponseDetector) (side : Pressure) (ratio persistence bps : Quotient) (n : ℕ)
    → classify d (opposite side) (negated ratio) persistence (negated bps) n
      ≡ mirrored (classify d side ratio persistence bps n)
unfolding classify
classify-mirrored d buying ratio persistence bps n =
    rw (absolute-negated ratio) (ground (arith, classify_side-mirrored d buying bps))
classify-mirrored d selling ratio persistence bps n =
    rw (absolute-negated ratio) (ground (arith, classify_side-mirrored d selling bps))
classify-mirrored d neutral ratio persistence bps n = rw (absolute-negated ratio) (ground arith)
