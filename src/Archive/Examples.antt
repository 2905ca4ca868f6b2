-- ===== src/Archive/Examples.antt =====
-- Two commits of one document, in memory.
use openaslc.Base.{ℕ, ◌≡◌, ◌≢◌, refl, [], ◌∷◌, false, none, inl}
use openaslc.Base.Int.{pos}
use openaslc.Base.Text.{String, int_to_string, c_str}
use openaslc.Logic.Parse.Sample.{sample, document, print}
use openaslc.Logic.Parse.Printer.{sample_writer, prints}
use openaslc.Archive.Sql.{rows, select_head, select_history, select_snapshot, integer, text}
use openaslc.Archive.Rows.{CommitInfo, Archived, archived, head_of, bind_commit, bind_optional}
use openaslc.Archive.Tables.{Contents, empty, limited}
use openaslc.Archive.Head.{commit_of}
use openaslc.Archive.Chain.{
  IsHistory, IsChain, commits, deploys, here, next, Reach-IsHistory, commit_config-IsChain,
}
use openaslc.Archive.Readback.{
  GivesOr, get_snapshot-commit_config, HistoryEnds, get_commit_history_lem,
}
use openaslc.Archive.Memory.{memory, memory_tables}
use openaslc.Archive.{
  and_then, insert, insert_result, query_result, read_head, store_commit, commit_config,
  record_deployment, get_snapshot, get_commit_history,
}

abbrev clock : ℕ → String
clock now = "2026-01-01T00:00:00"

abbrev first_commit : Archived CommitInfo × Contents
first_commit = commit_config memory sample sample_writer clock empty 1500 "ann" "first" document

abbrev second_commit : Archived CommitInfo × Contents
second_commit =
    commit_config memory sample sample_writer clock first_commit.1 2500 "bob" "second" document

Reach-IsHistory_example :
    IsHistory (record_deployment memory sample sample_writer clock second_commit.1 2600 "1234").1
Reach-IsHistory_example = Reach-IsHistory memory memory_tables sample sample_writer clock refl (
    next
      (next (next here (commits empty 1500 "ann" "first" document))
        (commits first_commit.1 2500 "bob" "second" document))
      (deploys second_commit.1 2600 "1234"))

answers : (memory.run empty select_head []).0 ≢ rows [] false
answers e = absurd (cc (e))

commit_config-IsChain_example : IsChain first_commit.1.commits
commit_config-IsChain_example =
    commit_config-IsChain memory memory_tables sample sample_writer clock empty 1500 "ann" "first"
      document answers tt

abbrev first_info : CommitInfo
first_info =
    commit_of memory memory_tables sample sample_writer clock 1500 "ann" "first" (print document)
      none

document_parsed : sample.parse (print document) ≡ inl document
unfolding int_to_string
document_parsed = refl

first_made : first_commit ≡ (archived first_info, first_commit.1)
unfolding commit_config and_then insert insert_result query_result read_head store_commit head_of
    bind_commit bind_optional prints c_str int_to_string
first_made = refl

get_snapshot-commit_config_example :
    GivesOr document
      (memory.run first_commit.1 select_snapshot (text (c_str first_info.sha256) ∷ [])).0
      (get_snapshot memory sample sample_writer clock first_commit.1 first_info.sha256).0
get_snapshot-commit_config_example =
    get_snapshot-commit_config memory memory_tables sample sample_writer clock empty first_commit.1
      1500 "ann" "first" (print document) document first_info document_parsed first_made

history_of_one :
    HistoryEnds
      (limited (pos 1) second_commit.1.commits)
      (memory.run second_commit.1 select_history (integer (pos 1) ∷ [])).0
      (get_commit_history memory second_commit.1 (pos 1)).0
    × ((get_commit_history memory second_commit.1 (pos 1)).1 ≡ second_commit.1)
history_of_one = get_commit_history_lem memory memory_tables second_commit.1 (pos 1)
