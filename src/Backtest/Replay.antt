-- ===== src/Backtest/Replay.antt =====
-- backtest/engine.py: the cursor of a replay, and what the cycles read through it.
use mt5_mcp_trading_framewor.Common.{
  ℕ, zero, suc, String, ◌-◌, Option, none, some, List, map, take, drop, get_elem?, length, [], ◌≡◌,
  ◌<◌, arith, ◌++◌, take-append, ap, refl, ◌∷◌,
}
use mathlib.Core.Path.{fun_ext}
use mt5_mcp_trading_framewor.Common.Outcome.{Outcome, ok, raised, index_error, ◌>>=◌}
use mt5_mcp_trading_framewor.Common.Action.{pure, lift}
use mt5_mcp_trading_framewor.Float.{Float, ◌⊕◌, ◌⊖◌, ◌⊗◌, ◌⊘◌, nought}
use mt5_mcp_trading_framewor.Domain.{
  MarketBar, SymbolInfo, Tick, PositionState, OrderState, AccountState, demo,
}
use mt5_mcp_trading_framewor.Pipeline.Interfaces.{MarketDataSource, AccountReader}
use mt5_mcp_trading_framewor.Backtest.Ledger.{
  BacktestLedger, OpenPosition, PendingOrder, positions_for, orders_for,
}

pub record ReplayCursor (F : Type 0) : Type 0 where
  pub bars : List (MarketBar F)
  pub index : ℕ

-- what the rest of the replay may see of a cursor
pub record View (F : Type 0) : Type 0 where
  pub current_bar : Outcome (MarketBar F)
  pub visible_bars : ℕ → List (MarketBar F)

module _ {F : Type 0} where
  abbrev found_bar : Option (MarketBar F) → Outcome (MarketBar F)
  found_bar none = raised index_error
  found_bar (some bar) = ok bar

  unfoldable pub current_bar : ReplayCursor F → Outcome (MarketBar F)
  current_bar cursor = found_bar (get_elem? cursor.bars cursor.index)

  -- `self._bars[max(0, index - count + 1) : index + 1]`
  unfoldable pub visible_bars : ReplayCursor F → ℕ → List (MarketBar F)
  visible_bars cursor count = drop (suc cursor.index - count) (take (suc cursor.index) cursor.bars)

  unfoldable pub view : ReplayCursor F → View F
  view cursor = record { current_bar = current_bar cursor; visible_bars = visible_bars cursor }

  get_elem?-append :
      (bars later : List (MarketBar F)) (n : ℕ)
      → n < length bars
      → get_elem? (bars ++ later) n ≡ get_elem? bars n
  get_elem?-append [] later n h = absurd (omega (arith, h))
  get_elem?-append (b ∷ bars) later zero h = refl
  get_elem?-append (b ∷ bars) later (suc n) h = get_elem?-append bars later n (omega (arith, h))

  -- Nothing behind the cursor's bar can be seen through it: two histories that agree up to it look the
  -- same.
  pub view_prefix :
      (bars later : List (MarketBar F)) (n : ℕ)
      → n < length bars
      → view (record { bars = bars ++ later; index = n }) ≡ view (record { bars = bars; index = n })
  unfolding view current_bar visible_bars
  view_prefix bars later n h =
      let e : (count : ℕ)
          → drop (suc n - count) (take (suc n) (bars ++ later))
            ≡ drop (suc n - count) (take (suc n) bars) =
        λ count. ap (drop (suc n - count)) (take-append (suc n) bars later (omega (arith, h))) in
      let e' = ap found_bar (get_elem?-append bars later n h) in
      λ i. record { current_bar = e' i; visible_bars = fun_ext e i }

module _ {F : Type 0} ⦃f : Float F⦄ where
  unfoldable pub half_spread_price : MarketBar F → SymbolInfo F → F → F
  half_spread_price bar symbol_info spread_multiplier =
      f.of_nat bar.spread ⊗ spread_multiplier ⊗ symbol_info.point ⊘ f.of_nat 2

  -- `BacktestMarketDataSource`: the names of the symbol and the timeframe are not looked at
  abbrev pub tick_at : SymbolInfo F → F → String → MarketBar F → Tick F
  tick_at symbol_info spread_multiplier symbol bar = record {
    symbol = symbol;
    bid = bar.close ⊖ half_spread_price bar symbol_info spread_multiplier;
    ask = bar.close ⊕ half_spread_price bar symbol_info spread_multiplier;
    time = bar.time;
  }

  unfoldable pub market_data : View F → SymbolInfo F → F → MarketDataSource (BacktestLedger F) F
  market_data v symbol_info spread_multiplier = record {
    get_bars = λ symbol timeframe count. pure (v.visible_bars count);
    get_tick = λ symbol.
        lift (v.current_bar >>= λ bar. ok (tick_at symbol_info spread_multiplier symbol bar));
    get_symbol_info = λ symbol. pure symbol_info;
  }

  abbrev pub position_state : OpenPosition F → PositionState F
  position_state p = record {
    ticket = p.ticket;
    symbol = p.symbol;
    side = p.side;
    volume = p.volume;
    price_open = p.price_open;
    profit = nought;
    magic = p.magic;
    sl = p.sl;
    tp = p.tp;
  }

  unfoldable pub account_state : F → BacktestLedger F → AccountState F
  account_state starting_balance l =
      let balance = starting_balance ⊕ f.sum (map (λ t. t.notional_pnl) l.closed_trades) in
      record {
        balance = balance;
        equity = balance;
        margin_free = balance;
        trade_mode = demo;
        login = none;
        server = none;
      }

  abbrev pub order_state : PendingOrder F → OrderState F
  order_state o = record {
    ticket = o.ticket;
    symbol = o.symbol;
    side = o.side;
    volume = o.volume;
    price = o.price;
    magic = o.magic;
  }

  -- `BacktestAccountReader`
  unfoldable pub account_reader : AccountReader (BacktestLedger F) F
  account_reader = record {
    get_positions = λ symbol magic l. (ok (map position_state (positions_for symbol magic l)), l);
    get_orders = λ symbol magic l. (ok (map order_state (orders_for symbol magic l)), l);
  }
