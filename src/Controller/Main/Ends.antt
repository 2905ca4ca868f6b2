-- ===== src/Controller/Main/Ends.antt =====
-- `main` as a whole.
use openaslc.Base.{◌≡◌}
use openaslc.Base.Int.{pos}
use openaslc.Base.Text.{String}
use openaslc.Logic.{LogicProgram}
use openaslc.Logic.Parse.{Parsed, parsed, logic_parse_error, from_file}
use openaslc.Archive.Rows.{config_archive_error}
use openaslc.Archive.Tables.{Tables}
use openaslc.Archive
use openaslc.Archive.{create, execute, execute_all, and_then}
use openaslc.Telemetry.Clients.{ClientsReturn}
use openaslc.Controller.Main.{Libraries, Machine, Host, Exit, exits, uncaught}
use openaslc.Controller.Calls.{fresh, off}
use openaslc.Controller.Main.Parts.{Stopped}

module _ (libs : Libraries) (tables : Tables libs.sq)
    (clients : ClientsReturn libs.lib libs.writer libs.sock libs.can_allocate)
    (host : Host libs) where
  open libs use {lib, writer, reader, sq, put_time, sock, can_allocate}

  abbrev State : Type 0
  State = Machine libs

  -- What the two files of programs give.
  abbrev pub Example : Parsed LogicProgram
  Example = from_file lib host.example_path host.example (pos 20)

  abbrev pub Reloaded : Parsed LogicProgram
  Reloaded = from_file lib host.reload_path host.reload_example (pos 20)

  -- How `main` ends.
  pub data MainEnds : Exit libs → Type 0 where
    -- the archive's constructor throws
    not_archived :
        (what : String)
        → Archive.create sq host.db_path ≡ config_archive_error what
        → MainEnds uncaught
    -- the first program is refused
    not_loaded :
        (what : String) (m : State)
        → Example ≡ logic_parse_error what
        → Stopped fresh m
        → MainEnds (exits 1 m)
    -- the second one is refused
    not_reloaded :
        (p : LogicProgram) (what : String) (m : State)
        → Example ≡ parsed p
        → Reloaded ≡ logic_parse_error what
        → Stopped off m
        → MainEnds (exits 1 m)
    completed :
        (p q : LogicProgram) (m : State)
        → Example ≡ parsed p
        → Reloaded ≡ parsed q
        → Stopped off m
        → MainEnds (exits 0 m)
