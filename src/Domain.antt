-- ===== src/Domain.antt =====
-- domain/models.py: the immutable records that the stages of the pipeline hand on. A `datetime` is an
-- aware instant, the microseconds since 0001-01-01 UTC; text that a message formats is a `Reason`.
mod Market
mod Reasons
mod Trade
mod Account
pub use Market.*
pub use Reasons.*
pub use Trade.*
pub use Account.*
