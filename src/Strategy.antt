-- ===== src/Strategy.antt =====
-- strategy/ and trade_intent/: from bars to grid levels, a runner signal or a guard action, and from
-- those to trade intents.
pub mod Grid
pub mod Runner
pub mod Guard
