-- ===== src/Domain/Market.antt =====
-- The records of domain/models.py about the market and the strategies' outputs.
use mt5_mcp_trading_framewor.Common.{ℕ, Bool, true, false, Option, String}

-- an aware `datetime`, as microseconds since 0001-01-01 UTC
abbrev pub Time : Type 0
Time = ℕ

pub data Side : Type 0 where
  buy sell : Side

pub data Direction : Type 0 where
  long short flat : Direction

abbrev pub side_eq : Side → Side → Bool
side_eq buy buy = true
side_eq sell sell = true
side_eq _ _ = false

pub record MarketBar (F : Type 0) : Type 0 where
  pub symbol : String
  pub timeframe : String
  pub time : Time
  pub open_price : F
  pub high : F
  pub low : F
  pub close : F
  pub tick_volume : ℕ
  pub spread : ℕ

pub record Tick (F : Type 0) : Type 0 where
  pub symbol : String
  pub bid : F
  pub ask : F
  pub time : Time

pub record GridLevels (F : Type 0) : Type 0 where
  pub symbol : String
  pub timestamp : Time
  pub center : F
  pub atr : F
  pub step_price : F
  pub tp_price : F
  pub sl_price : F
  pub buy_price : F
  pub sell_price : F

pub record GuardState : Type 0 where
  pub deadline_bars_remaining : ℕ
  pub last_evaluated_bar_time : Option Time

-- `kind` and `ratio` together: `ratio` is set for a partial close only
pub data GuardAction (F : Type 0) : Type 0 where
  no_action : GuardAction F
  partial_close : F → GuardAction F
  flatten : GuardAction F

pub record SymbolInfo (F : Type 0) : Type 0 where
  pub symbol : String
  pub digits : ℕ
  pub point : F
  pub volume_min : F
  pub volume_max : F
  pub volume_step : F
  pub stops_level : ℕ
  pub freeze_level : ℕ
  pub spread : ℕ
