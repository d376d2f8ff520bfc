-- ===== src/Domain/Account.antt =====
-- The records of domain/models.py that describe the account as MT5 reports it.
use mt5_mcp_trading_framewor.Common.{ℕ, Option, String}
use mt5_mcp_trading_framewor.Domain.Market.{Time, Side}

pub data TradeMode : Type 0 where
  demo contest real : TradeMode

pub record AccountState (F : Type 0) : Type 0 where
  pub balance : F
  pub equity : F
  pub margin_free : F
  pub trade_mode : TradeMode
  pub login : Option ℕ
  pub server : Option String

pub record PositionState (F : Type 0) : Type 0 where
  pub ticket : ℕ
  pub symbol : String
  pub side : Side
  pub volume : F
  pub price_open : F
  pub profit : F
  pub magic : ℕ
  pub sl : F
  pub tp : F

pub record OrderState (F : Type 0) : Type 0 where
  pub ticket : ℕ
  pub symbol : String
  pub side : Side
  pub volume : F
  pub price : F
  pub magic : ℕ

-- `kind` and `entry` are MT5's raw codes; the source calls the first `type`
pub record Deal (F : Type 0) : Type 0 where
  pub ticket : ℕ
  pub order : ℕ
  pub position_id : ℕ
  pub time : Time
  pub kind : ℕ
  pub entry : ℕ
  pub symbol : String
  pub volume : F
  pub price : F
  pub profit : F
  pub commission : F
  pub swap : F
  pub fee : F
  pub magic : ℕ
  pub comment : String
