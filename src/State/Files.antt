-- ===== src/State/Files.antt =====
-- `_write_record_file` of state/store.py: a record's file is written under another name and then put in
-- its place. The disk and `json.dumps` are parameters.
pub mod Laws
use mt5_mcp_trading_framewor.Common.{ℕ, String}
use mt5_mcp_trading_framewor.Common.Action.{Action, ◌>>=◌, ◌>>◌}
use mt5_mcp_trading_framewor.State.Models.{LocalOrderRecord}
use mt5_mcp_trading_framewor.State.Codec.{Dates, payload_of}
use mt5_mcp_trading_framewor.Adapter.Library.{Fields}
use Prim.Native.String.{◌++◌}

-- the calls of the operating system on a disk in a state of type `D`, each of which may raise
pub record Disk (D : Type 0) : Type 0 where
  -- `path.parent.mkdir(parents=True, exist_ok=True)`
  pub mkdir : String → Action D (Unit {0})
  -- `path.write_text(text)`
  pub write_text : (path content : String) → Action D (Unit {0})
  -- `os.replace(source, target)`
  pub replace : (source target : String) → Action D (Unit {0})

-- `path.with_suffix(path.suffix + ".tmp")`, of a path that has a suffix
abbrev pub tmp_path : String → String
tmp_path path = path ++ ".tmp"

module _ {D F : Type 0} (disk : Disk D) (dumps : Fields F → String) (dates : Dates) where
  unfoldable pub write_record_file : String → LocalOrderRecord F → Action D (Unit {0})
  unfolding payload_of
  write_record_file path r =
      disk.mkdir path
      >> (disk.write_text (tmp_path path) (dumps (payload_of dates r))
          >> disk.replace (tmp_path path) path)
