-- ===== src/State/Files/Laws.antt =====
-- Proofs about `_write_record_file` of state/store.py: a write that fails changes no record's file.
use mt5_mcp_trading_framewor.Common.{
  ◌≡◌, ◌≢◌, ◌⊎◌, inl, inr, refl, sym, ◌∙◌, subst, Option, some, String,
}
use mt5_mcp_trading_framewor.Common.Outcome.{Outcome, Error, ok, raised, Outcome-cases}
use mt5_mcp_trading_framewor.Common.Action.{◌>>◌, bind_cases}
use mt5_mcp_trading_framewor.State.Models.{LocalOrderRecord}
use mt5_mcp_trading_framewor.State.Codec.{Dates, payload_of}
use mt5_mcp_trading_framewor.State.Files.{Disk, tmp_path, write_record_file}
use mt5_mcp_trading_framewor.Adapter.Library.{Fields}

-- what the operating system says of the three calls, where `content` is what a file holds: making a
-- directory changes no file; a write changes its own file only, which holds the text if the call
-- returns; and a replacement that raises changes no file, and one that returns has put the source in
-- the target's place and changed no third file
pub record DiskLaws {D : Type 0} (disk : Disk D) (content : String → D → Option String)
    : Type 0 where
  pub mkdir_keeps : (path q : String) (d : D) → content q (disk.mkdir path d).1 ≡ content q d
  pub write_keeps :
      (path t q : String) (d : D) → q ≢ path → content q (disk.write_text path t d).1 ≡ content q d
  pub write_puts :
      (path t : String) (d : D) {u : Unit {0}}
      → (disk.write_text path t d).0 ≡ ok u
      → content path (disk.write_text path t d).1 ≡ some t
  pub replace_raised :
      (a b q : String) (d : D) {e : Error}
      → (disk.replace a b d).0 ≡ raised e
      → content q (disk.replace a b d).1 ≡ content q d
  pub replace_puts :
      (a b : String) (d : D) {u : Unit {0}}
      → (disk.replace a b d).0 ≡ ok u
      → content b (disk.replace a b d).1 ≡ content a d
  pub replace_keeps :
      (a b q : String) (d : D) → q ≢ a → q ≢ b → content q (disk.replace a b d).1 ≡ content q d

module _ {D : Type 0} (content : String → D → Option String) where
  -- all files but the temporary one are as before
  abbrev pub Untouched : String → D → D → Type 0
  Untouched path d d' = (q : String) → q ≢ tmp_path path → content q d' ≡ content q d

  -- the file at the path holds the text, and all files but it and the temporary one are as before
  abbrev pub Replaced : String → String → D → D → Type 0
  Replaced path t d d' =
      (content path d' ≡ some t)
      × ((q : String) → q ≢ tmp_path path → q ≢ path → content q d' ≡ content q d)

  abbrev pub WriteEnd : String → String → D → Outcome (Unit {0}) × D → Type 0
  WriteEnd path t d end =
      (((e : Error) × (end.0 ≡ raised e)) × Untouched path d end.1)
      ⊎ ((end.0 ≡ ok tt) × Replaced path t d end.1)

module _ {D F : Type 0} (disk : Disk D) (content : String → D → Option String)
    (laws : DiskLaws disk content) (dumps : Fields F → String) (dates : Dates) where
  replace_end :
      (path t : String) (d d' : D)
      → Untouched content path d d'
      → content (tmp_path path) d' ≡ some t
      → WriteEnd content path t d (disk.replace (tmp_path path) path d')
  replace_end path t d d' same written =
      elim (Outcome-cases (disk.replace (tmp_path path) path d').0) [
        | inl (e, bad) ↦
            inl (
              (e, bad),
              λ q other. laws.replace_raised (tmp_path path) path q d' bad ∙ same q other,
            )
        | inr (_, good) ↦ inr (
          good,
          (
            laws.replace_puts (tmp_path path) path d' good ∙ written,
            λ q other apart.
                laws.replace_keeps (tmp_path path) path q d' other apart ∙ same q other,
          ),
        )
      ]

  write_end :
      (path t : String) (d d' : D)
      → Untouched content path d d'
      → WriteEnd content path t d
          ((disk.write_text (tmp_path path) t >> disk.replace (tmp_path path) path) d')
  write_end path t d d' same =
      let write = disk.write_text (tmp_path path) t in
      let kept = λ (q : String) (other : q ≢ tmp_path path).
        laws.write_keeps (tmp_path path) t q d' other ∙ same q other in
      elim (bind_cases write (λ _. disk.replace (tmp_path path) path) d') [
        | inl (e, bad, end) ↦ subst (WriteEnd content path t d) (sym end) (inl ((e, refl), kept))
        | inr (_, good, end) ↦
            subst (WriteEnd content path t d) (sym end)
              (replace_end path t d (write d').1 kept (laws.write_puts (tmp_path path) t d' good))
      ]

  -- On a disk as `DiskLaws` says, where each step may fail: a write of a record either raises and leaves
  -- every file but the temporary one as it was, or returns, and then the file at the path holds the
  -- text of the record's object and every other file but the temporary one is as it was.
  pub write_record_file_atomic :
      (path : String) (r : LocalOrderRecord F) (d : D)
      → WriteEnd content path
          (dumps (payload_of dates r))
          d
          (write_record_file disk dumps dates path r d)
  unfolding write_record_file
  write_record_file_atomic path r d =
      let t = dumps (payload_of dates r) in
      let rest = disk.write_text (tmp_path path) t >> disk.replace (tmp_path path) path in
      let made = λ (q : String) (other : q ≢ tmp_path path). laws.mkdir_keeps path q d in
      elim (bind_cases (disk.mkdir path) (λ _. rest) d) [
        | inl (e, bad, end) ↦ subst (WriteEnd content path t d) (sym end) (inl ((e, refl), made))
        | inr (_, good, end) ↦
            subst (WriteEnd content path t d) (sym end)
              (write_end path t d (disk.mkdir path d).1 made)
      ]
