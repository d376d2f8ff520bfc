-- ===== src/Tests.antt =====
-- Concrete inputs and, at them, the theorems of the other modules. Decimals are `Fixed`, with three
-- places: `pos 1500` is 1.5.
mod Samples
mod Signals
mod Guards
mod Plans
mod Records
mod Desk
mod Codecs
mod Disks
mod Executors
mod Deals
mod Loops
mod Cycles
mod Replays
mod Sessions
mod Compositions
