-- ===== src/Tests/Disks.antt =====
-- `_write_record_file` of state/store.py on a disk that is a function from names to texts.
use mt5_mcp_trading_framewor.Common.{
  ◌≡◌, ◌≢◌, refl, true, false, Bool-cases, inl, inr, Option, none, some, String, str_eq, eq_iff,
  if◌then◌else◌,
}
use mt5_mcp_trading_framewor.Common.Outcome.{ok}
use mt5_mcp_trading_framewor.Float.Fixed.{Fixed}
use mt5_mcp_trading_framewor.Adapter.Library.{Fields}
use mt5_mcp_trading_framewor.State.Files.{Disk, write_record_file}
use mt5_mcp_trading_framewor.State.Files.Laws.{DiskLaws, WriteEnd, write_record_file_atomic}
use mt5_mcp_trading_framewor.Tests.Codecs.{dates}
use mt5_mcp_trading_framewor.Tests.Records.{stored}

abbrev Names : Type 0
Names = String → Option String

abbrev put : String → Option String → Names → Names
put name t d q = if str_eq q name then t else d q

abbrev drive : Disk Names
drive = record {
  mkdir = λ path d. (ok tt, d);
  write_text = λ path t d. (ok tt, put path (some t) d);
  replace = λ source target d. (ok tt, put target (d source) (put source none d));
}

abbrev content : String → Names → Option String
content name d = d name

str_eq_self : (a : String) → str_eq a a ≡ true
str_eq_self a = (eq_iff a a).1 refl

str_eq-apart : (a b : String) → a ≢ b → str_eq a b ≡ false
str_eq-apart a b apart = elim (Bool-cases (str_eq a b)) [
  | inr different ↦ different
  | inl same ↦ absurd (apart ((eq_iff a b).0 same))
]

drive_laws : DiskLaws drive content
drive_laws = record {
  mkdir_keeps = λ path q d. refl;
  write_keeps = λ path t q d apart. rw (str_eq-apart q path apart) refl;
  write_puts = λ path t d h. rw (str_eq_self path) refl;
  replace_raised = λ a b q d h. cc;
  replace_puts = λ a b d h. rw (str_eq_self b) refl;
  replace_keeps = λ a b q d apart away. rw (str_eq-apart q a apart, str_eq-apart q b away) refl;
}

abbrev dumps : Fields Fixed → String
dumps fields = "{}"

write_record_file_atomic_example :
    WriteEnd content "42.json" "{}"
      (λ name. none)
      (write_record_file drive dumps dates "42.json" stored (λ name. none))
write_record_file_atomic_example =
    write_record_file_atomic drive content drive_laws dumps dates "42.json" stored (λ name. none)
