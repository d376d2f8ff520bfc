-- ===== src/Tests/Codecs.antt =====
-- `_serialize` and `_deserialize` of state/store.py at a concrete record, with a time written as a mark
-- and as many marks as it counts.
use mt5_mcp_trading_framewor.Common.{
  Bool-cases, inl, inr, arith, eq_iff, str_eq, false, ℕ, zero, suc, ◌≡◌, refl, ap, String, Text,
  codes, [], ◌∷◌,
}
use mt5_mcp_trading_framewor.Common.Outcome.{ok}
use mt5_mcp_trading_framewor.State.Codec.{Dates, read_data, payload_of}
use mt5_mcp_trading_framewor.State.Codec.Laws.{read_data-payload_of}
use mt5_mcp_trading_framewor.Tests.Desk.{library}
use mt5_mcp_trading_framewor.Tests.Records.{stored}

abbrev marks : ℕ → String
marks zero = ""
marks (suc n) = String.◌∷◌ "x" (marks n)

abbrev count : Text → ℕ
count [] = 0
count (c ∷ s) = suc (count s)

abbrev read_marks : Text → ℕ
read_marks [] = 0
read_marks (c ∷ s) = count s

count-marks : (n : ℕ) → count (codes (marks n)) ≡ n
count-marks zero = refl
count-marks (suc n) = ap suc (count-marks n)

abbrev pub dates : Dates
dates = record {
  isoformat = λ t. String.◌∷◌ "x" (marks t);
  fromisoformat = λ s. ok (read_marks (codes s));
}

isoformat-nonempty : (s : String) → str_eq (String.◌∷◌ "x" s) "" ≡ false
isoformat-nonempty s = elim (Bool-cases (str_eq (String.◌∷◌ "x" s) "")) [
  | inr apart ↦ apart
  | inl same ↦
      let zero_marks : suc (count (codes s)) ≡ 0 =
        ap (λ t. count (codes t)) ((eq_iff (String.◌∷◌ "x" s) "").0 same) in
      absurd (omega (arith, zero_marks))
]

read_data-payload_of_example : read_data library dates 42 (payload_of dates stored) ≡ ok stored
read_data-payload_of_example =
    read_data-payload_of library dates (λ t. ap ok (count-marks t))
      (λ t. isoformat-nonempty (marks t)) 42 stored
