-- ===== src/Domain/Trade.antt =====
-- The records of domain/models.py from a trade intent to the result of its execution.
use mt5_mcp_trading_framewor.Common.{ℕ, Bool, Option, String, List, Text}
use mt5_mcp_trading_framewor.Common.Int.{ℤ}
use mt5_mcp_trading_framewor.Domain.Market.{Time, Side, Direction}
use mt5_mcp_trading_framewor.Domain.Reasons.{Reason, GuardName}

pub data OrderType : Type 0 where
  market_order limit_order : OrderType

pub record Signal (F : Type 0) : Type 0 where
  pub symbol : String
  pub strategy_name : String
  pub direction : Direction
  pub timestamp : Time
  pub rationale : Reason F

pub record TradeIntent (F : Type 0) : Type 0 where
  pub symbol : String
  pub side : Side
  pub strategy_name : String
  pub desired_order_type : OrderType
  pub timestamp : Time
  pub reference_price : Option F
  pub signal_ref : Option (Signal F)

pub record LotDecision (F : Type 0) : Type 0 where
  pub lot : F
  pub mode : Text
  pub reasons : List (Reason F)

-- `sizing_rationale` is the join of the reasons
pub record SizedIntent (F : Type 0) : Type 0 where
  pub intent : TradeIntent F
  pub volume : F
  pub sizing_mode : Text
  pub sizing_rationale : List (Reason F)

pub record RiskDecision (F : Type 0) : Type 0 where
  pub approved : Bool
  pub reasons : List (Reason F)
  pub blocking_guard : Option GuardName

pub record OrderPlan (F : Type 0) : Type 0 where
  pub symbol : String
  pub order_type : OrderType
  pub side : Side
  pub volume : F
  pub price : Option F
  pub sl : F
  pub tp : F
  pub deviation : ℕ
  pub magic : ℕ
  pub comment : String
  pub filling_mode : Option String
  pub expiry : Option Time

pub record ExecutionResult (F : Type 0) : Type 0 where
  pub order_plan : Option (OrderPlan F)
  pub success : Bool
  pub retcode : ℤ
  pub ticket : Option ℕ
  pub deal : Option ℕ
  pub executed_price : Option F
  pub executed_volume : Option F
  pub broker_comment : String
  pub verified : Bool
