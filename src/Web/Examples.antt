-- ===== src/Web/Examples.antt =====
-- Requests to a server with an archive in memory and a log.
use openaslc.Base.{ℕ, ◌≡◌, refl, [], true, none, some, arith}
use openaslc.Base.Outcome.{ok}
use openaslc.Base.Int.{pos}
use openaslc.Base.Text.{String, int_to_string, to_string, c_str}
use openaslc.Logic.Runtime.{create}
use openaslc.Logic.Parse.Sample.{sample, document, input_body, print}
use openaslc.Logic.Parse.Printer.{sample_writer, prints}
use openaslc.Archive.Rows.{CommitInfo, archived, head_of, bind_commit, bind_optional}
use openaslc.Archive.Tables.{Contents, empty}
use openaslc.Archive.Memory.{memory, memory_tables}
use openaslc.Archive.Head.{commit_of}
use openaslc.Archive.{
  commit_config, and_then, insert, insert_result, query_result, read_head, store_commit,
}
use openaslc.Logger
use openaslc.Logger.Ring.{initial-IsValid}
use openaslc.MockDriver
use openaslc.MockDriver.{MockDriver, set_mock_input_bit}
use openaslc.MockDriver.Inputs.{create-IsValid}
use openaslc.Web.{Request, Handled, Services}
use openaslc.Web.Deploy.{Times, handle_deploy}
use openaslc.Web.History.{limit_of, handle_history}
use openaslc.Web.History.Answers.{Shows, handle_history-Shows, limit_of-to_string}
use openaslc.Web.Input.{handle_input}
use openaslc.Web.Input.SampleReader.{reader}
use openaslc.Web.Input.Ends.{InputEnds, handle_input-InputEnds}
use openaslc.MemoryMap.{initial}
use openaslc.MemoryMap.Bounds.{initial-IsValid as map-IsValid}
use openaslc.Logic.Runtime.Steps.{World, inside}
use openaslc.Logic.Runtime.Safety.{IsSafe}
use openaslc.Web.Deploy.Safe.{with_services, handle_deploy-IsSafe}

abbrev clock : ℕ → String
clock now = "2026-01-01T00:00:00"

abbrev services : Services Contents
services = record {
  runtime = create (pos 10) none;
  heap = [];
  archive = some empty;
  logger = some Logger.initial;
}

abbrev deploy_request : Request
deploy_request = record { body = print document; param = λ key. some "ann" }

abbrev times : Times
times = record { commit = 1500; deployment = 1501; log = 1502 }

-- ?limit=1
abbrev history_request : Request
history_request = record { body = ""; param = λ key. some (to_string 1) }

one_asked : limit_of history_request ≡ pos 1
one_asked = limit_of-to_string history_request 1 (omega arith) refl

abbrev info : CommitInfo
info =
    commit_of memory memory_tables sample sample_writer clock 1500 "ann" "first" (print document)
      none

abbrev after : Contents
after = (commit_config memory sample sample_writer clock empty 1500 "ann" "first" document).1

commit_made :
    commit_config memory sample sample_writer clock empty 1500 "ann" "first" document
    ≡ (archived info, after)
unfolding commit_config and_then insert insert_result query_result read_head store_commit head_of
    bind_commit bind_optional prints c_str int_to_string
commit_made = refl

handle_history-Shows_example :
    (h : Handled) × (db' : Contents) × (handle_history sample sample_writer memory after
        history_request
      ≡ ok (h, db'))
    × (db' ≡ after)
    × Shows sample sample_writer memory memory_tables after history_request h
handle_history-Shows_example =
    handle_history-Shows sample sample_writer memory memory_tables after history_request

abbrev driver : MockDriver
driver = MockDriver.create true

-- {"byte": 0, "bit": 1, "value": true}
abbrev input_request : Request
input_request = record { body = print input_body; param = λ key. none }

handle_input-InputEnds_example :
    InputEnds sample sample_writer reader driver input_request 0 1
      (handle_input sample sample_writer reader set_mock_input_bit driver input_request)
handle_input-InputEnds_example =
    handle_input-InputEnds sample sample_writer reader driver input_request 0 1
      (create-IsValid true) (omega arith)

-- The scan thread is inside `execute_cycle` without a program.
abbrev scanning : World
scanning = record {
  runtime = create (pos 10) none;
  heap = [];
  mem = initial;
  scanner = inside none;
}

scanning-IsSafe : IsSafe scanning
unfolding create
scanning-IsSafe = record {
  programs = tt;
  current_live = tt;
  scanner_live = tt;
  map_valid = map-IsValid;
}

handle_deploy-IsSafe_example :
    (h : Handled) × (s' : Services Contents) × (handle_deploy sample sample_writer memory clock
        services deploy_request times
      ≡ ok (h, s'))
    × IsSafe (with_services scanning s'.runtime s'.heap)
handle_deploy-IsSafe_example =
    handle_deploy-IsSafe memory memory_tables sample sample_writer clock scanning services
      deploy_request times initial-IsValid scanning-IsSafe
