-- ===== src/Monitoring/Trades.antt =====
-- The trades that the closed records and the deals make together, and the slippage of each record.
use mt5_mcp_trading_framewor.Common.{
  ℕ, ◌&&◌, Option, none, some, List, [], ◌∷◌, String, str_eq, if◌then◌else◌, ltb, map,
}
use mt5_mcp_trading_framewor.Common.Outcome.{Outcome, ok, raised, zero_division, ◌>>=◌}
use mt5_mcp_trading_framewor.Float.{Float, ◌⊕◌, ◌⊖◌, ◌⊗◌, ◌⊘◌, ◌⊑◌, nought}
use mt5_mcp_trading_framewor.Domain.{Time, Deal}
use mt5_mcp_trading_framewor.State.Models.{
  LocalOrderRecord, OrderRecordOrigin, system_owned, manual_adoption,
}
use mt5_mcp_trading_framewor.Monitoring.{deals_of, ins_of, outs_of}
use mt5_mcp_trading_framewor.Monitoring.DealTime.{earliest}

-- the `ClosedTrade` of a record: its side is the record's text, its time of opening may be missing, and
-- its `close_reason` is always "closed"
pub record LiveTrade (F : Type 0) : Type 0 where
  pub ticket : ℕ
  pub symbol : String
  pub side : String
  pub volume : F
  pub price_open : F
  pub price_close : F
  pub sl : F
  pub tp : F
  pub magic : ℕ
  pub comment : String
  pub opened_at : Option Time
  pub closed_at : Time
  pub r_multiple : F
  pub notional_pnl : F

-- the texts of a `SkippedRecord`
pub data SkipReason (F : Type 0) : Type 0 where
  no_out_deal : SkipReason F
  no_open_price : SkipReason F
  zero_risk : (sl price_open : F) → SkipReason F
  not_submitted : OrderRecordOrigin → SkipReason F
  no_fill_price : SkipReason F

pub record SkippedRecord (F : Type 0) : Type 0 where
  pub ticket : ℕ
  pub reason : SkipReason F

pub record LiveTradeJoinResult (F : Type 0) : Type 0 where
  pub trades : List (LiveTrade F)
  pub skipped : List (SkippedRecord F)

pub record SlippageResult (F : Type 0) : Type 0 where
  pub ticket : ℕ
  pub order_type : String
  pub slippage_price_units : F

-- `max(times)`
abbrev pub latest : Time → List Time → Time
latest t [] = t
latest t (u ∷ us) = latest (if ltb t u then u else t) us

module _ {F : Type 0} where
  -- `min((d.time for d in ins), default=submitted_at)`
  abbrev pub opening_time : List (Deal F) → Option Time → Option Time
  opening_time [] submitted_at = submitted_at
  opening_time (d ∷ ds) submitted_at = some (earliest d.time (map (λ x. x.time) ds))

-- what a round of a loop adds: a result, or a skipped record
pub data Entry (A F : Type 0) : Type 0 where
  kept : A → Entry A F
  skip : SkipReason F → Entry A F

module _ {F : Type 0} ⦃f : Float F⦄ where
  -- `a / b`, which raises for a zero `b`
  abbrev pub divide : F → F → Outcome F
  divide a b = if (b ⊑ nought) && (nought ⊑ b) then raised zero_division else ok (a ⊘ b)

  unfoldable pub weighted_average_price : List (Deal F) → Outcome F
  weighted_average_price deals =
      let total_volume = f.sum (map (λ d. d.volume) deals) in
      divide (f.sum (map (λ d. d.price ⊗ d.volume) deals)) total_volume

  -- the profit of a deal with its costs
  abbrev pub net : Deal F → F
  net d = d.profit ⊕ d.commission ⊕ d.swap ⊕ d.fee

  abbrev trade_of :
      LocalOrderRecord F → List (Deal F) → F → F → F → Option Time → Time → LiveTrade F
  trade_of r matched price_open price_close risk opened_at closed_at = record {
    ticket = r.ticket;
    symbol = r.symbol;
    side = r.side;
    volume = r.requested_volume;
    price_open = price_open;
    price_close = price_close;
    sl = r.requested_sl;
    tp = r.requested_tp;
    magic = r.magic;
    comment = r.comment;
    opened_at = opened_at;
    closed_at = closed_at;
    r_multiple =
        (if str_eq r.side "BUY" then price_close ⊖ price_open else price_open ⊖ price_close) ⊘ risk;
    notional_pnl = f.sum (map (λ d. net d) matched);
  }

  abbrev with_prices :
      LocalOrderRecord F
      → List (Deal F)
      → Deal F
      → List (Deal F)
      → Option F
      → Outcome (Entry (LiveTrade F) F)
  with_prices r matched out outs none = ok (skip no_open_price)
  with_prices r matched out outs (some price_open) =
      let risk = f.abs (price_open ⊖ r.requested_sl) in
      let trade = weighted_average_price (out ∷ outs) >>= λ price_close. ok (
        kept (
          trade_of r matched price_open price_close risk
            (opening_time (ins_of matched) r.submitted_at)
            (latest out.time (map (λ d. d.time) outs)))) in
      if risk ⊑ nought then ok (skip (zero_risk r.requested_sl price_open)) else trade

  -- `_weighted_average_price(ins) if ins else record.executed_price`
  abbrev open_price : List (Deal F) → Option F → Outcome (Option F)
  open_price [] executed_price = ok executed_price
  open_price (d ∷ ds) executed_price = weighted_average_price (d ∷ ds) >>= λ p. ok (some p)

  abbrev with_outs :
      LocalOrderRecord F → List (Deal F) → List (Deal F) → Outcome (Entry (LiveTrade F) F)
  with_outs r matched [] = ok (skip no_out_deal)
  with_outs r matched (out ∷ outs) =
      open_price (ins_of matched) r.executed_price >>= λ p. with_prices r matched out outs p

  -- one round of the loop
  unfoldable pub join_record : LocalOrderRecord F → List (Deal F) → Outcome (Entry (LiveTrade F) F)
  unfolding weighted_average_price
  join_record r deals =
      let matched = deals_of r.ticket deals in with_outs r matched (outs_of matched)

  abbrev pub add_entry : ℕ → Entry (LiveTrade F) F → LiveTradeJoinResult F → LiveTradeJoinResult F
  add_entry ticket (kept trade) rest = record rest { trades = trade ∷ rest.trades }
  add_entry ticket (skip reason) rest = record rest {
    skipped = record { ticket = ticket; reason = reason } ∷ rest.skipped;
  }

  unfoldable pub build_closed_trades :
      List (LocalOrderRecord F) → List (Deal F) → Outcome (LiveTradeJoinResult F)
  unfolding join_record
  build_closed_trades [] deals = ok (record { trades = []; skipped = [] })
  build_closed_trades (r ∷ rs) deals = join_record r deals >>= λ entry.
      build_closed_trades rs deals >>= λ rest. ok (add_entry r.ticket entry rest)

  abbrev slippage_between : LocalOrderRecord F → Option F → Option F → Entry (SlippageResult F) F
  slippage_between r (some requested) (some executed) = kept (record {
    ticket = r.ticket;
    order_type = r.order_type;
    slippage_price_units =
        if str_eq r.side "BUY" then executed ⊖ requested else requested ⊖ executed;
  })
  slippage_between r _ _ = skip no_fill_price

  abbrev slippage_owned : OrderRecordOrigin → LocalOrderRecord F → Entry (SlippageResult F) F
  slippage_owned system_owned r = slippage_between r r.requested_price r.executed_price
  slippage_owned manual_adoption r = skip (not_submitted manual_adoption)

  -- one round of the loop
  unfoldable pub slippage_of : LocalOrderRecord F → Entry (SlippageResult F) F
  slippage_of r = slippage_owned r.origin r

  abbrev pub add_slippage :
      ℕ
      → Entry (SlippageResult F) F
      → List (SlippageResult F) × List (SkippedRecord F)
      → List (SlippageResult F) × List (SkippedRecord F)
  add_slippage ticket (kept result) (results, skipped) = (result ∷ results, skipped)
  add_slippage ticket (skip reason) (results, skipped) =
      (results, record { ticket = ticket; reason = reason } ∷ skipped)

  unfoldable pub compute_slippage :
      List (LocalOrderRecord F) → List (SlippageResult F) × List (SkippedRecord F)
  unfolding slippage_of
  compute_slippage [] = ([], [])
  compute_slippage (r ∷ rs) = add_slippage r.ticket (slippage_of r) (compute_slippage rs)
