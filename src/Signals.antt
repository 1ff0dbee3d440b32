-- ===== src/Signals.antt =====
-- The two shells that the bar close goes through (src/orderflow/signal.py and src/ai/analysis.py): the
-- indicators are independent, so that the signal is fixed and the analysis repeats its reasons.
use deltaengine.Prelude.{List, [], ◌∷◌, Option, none, String, Decimal, pos}
use deltaengine.Trades.{Time}
use deltaengine.Absorption.{AbsorptionResult}
use deltaengine.Imbalance.{ImbalanceResult}

pub record SignalResult : Type 0 where
  pub composite : Decimal
  pub confidence : Decimal
  pub signal : String
  pub reasons : List String
  pub flow_score : Option Decimal

-- `SignalEngine.evaluate`, whatever it is given.
abbrev pub evaluate_signal : SignalResult
evaluate_signal = record {
  composite = pos 0;
  confidence = pos 0;
  signal = "WAIT";
  reasons = "NO_INPUT" ∷ [];
  flow_score = none;
}

pub record AnalysisInput : Type 0 where
  pub analysis_time : Time
  pub symbol : String
  pub signal_result : SignalResult
  pub cvd_delta : Decimal
  pub fp_buy_total : Decimal
  pub fp_sell_total : Decimal
  pub imbalance_result : Option ImbalanceResult
  pub absorption_result : Option AbsorptionResult

pub record AnalysisResult : Type 0 where
  pub analysis_time : Time
  pub symbol : String
  pub market_state : String
  pub confidence : Decimal
  pub risk_level : String
  pub summary : String
  pub reasons : List String

-- `AnalysisEngine.evaluate`
unfoldable pub evaluate_analysis : AnalysisInput → AnalysisResult
evaluate_analysis i = record {
  analysis_time = i.analysis_time;
  symbol = i.symbol;
  market_state = "NEUTRAL";
  confidence = pos 0;
  risk_level = "LOW";
  summary = "Independent indicators active";
  reasons = i.signal_result.reasons;
}
