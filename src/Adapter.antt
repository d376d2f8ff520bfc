-- ===== src/Adapter.antt =====
-- mt5_adapter/: what the MetaTrader server's replies mean, and the executor and the readers over them.
pub mod Library
pub mod Response
pub mod Deals
pub mod Account
pub mod Executor
pub mod Composition
