-- ===== src/Common/Clock.antt =====
-- A `timedelta` as a signed number of microseconds, and a `datetime` moved by one.
use mt5_mcp_trading_framewor.Common.Tests.{ltb, if◌then◌else◌}
use mt5_mcp_trading_framewor.Common.Int.{ℤ, pos, negsuc, sub_ℕ, pos_part, neg_part}
use mt5_mcp_trading_framewor.Common.Outcome.{Outcome, ok, raised, overflow_error}
use Prim.Native.Nat.{ℕ, ◌+◌}

-- microseconds from the start of year 1 to the end of year 9999
abbrev pub end_of_time : ℕ
end_of_time = 315_537_897_600_000_000

abbrev pub in_range : ℤ → Outcome ℕ
in_range (pos n) = if ltb n end_of_time then ok n else raised overflow_error
in_range (negsuc n) = raised overflow_error

-- `time - delta`, which is out of range before year 1 and after year 9999
unfoldable pub minus_delta : ℕ → ℤ → Outcome ℕ
minus_delta time delta = in_range (sub_ℕ (time + neg_part delta) (pos_part delta))

-- the `timedelta` of `a - b`
abbrev pub time_diff : ℕ → ℕ → ℤ
time_diff a b = sub_ℕ a b
