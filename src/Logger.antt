-- ===== src/Logger.antt =====
-- The asynchronous logger: include/openaslc/ring_buffer_logger.hpp and src/ring_buffer_logger.cpp.
-- `log` and the first half of `flush_pending` each hold the mutex, so each is one function on the
-- ring. The files are those of the log path: number 0 is the log, number i is the backup `.i`.
pub mod Ring
pub mod Fifo
pub mod History
pub mod Rotation
pub mod Threads
pub mod Writes
mod Examples
use openaslc.Base.{
  ℕ, zero, suc, ◌+◌, ◌-◌, ◌/◌, ◌%◌, ◌^◌, ◌<◌, ◌≡◌, Bool, true, false, ◌||◌, List, [], ◌∷◌, ◌++◌,
  Option, none, some, ltb, leb, ◌==◌, if◌then◌else◌, length, get_elem?, set, take, drop, replicate,
  min,
}
use openaslc.Base.Outcome.{Outcome, ok, undefined, ◌>>=◌}
use openaslc.Base.Text.{String, ◌<>◌, codes, to_string}

pub data LogLevel : Type 0 where
  info : LogLevel
  warn : LogLevel
  error : LogLevel

abbrev pub capacity : ℕ
capacity = 1024

abbrev pub max_message_len : ℕ
max_message_len = 160

-- `message` is the whole array; the entry's text is its first `message_len` characters.
-- Times are milliseconds since the epoch.
pub record LogEntry : Type 0 where
  pub timestamp : ℕ
  pub level : LogLevel
  pub message : List ℕ
  pub message_len : ℕ

pub record RingBuffer : Type 0 where
  pub buffer : List LogEntry
  -- next write position
  pub head : ℕ
  -- entries buffered and not yet flushed
  pub count : ℕ
  pub dropped : ℕ

unfoldable pub blank : LogEntry
blank = record {
  timestamp = 0;
  level = info;
  message = replicate max_message_len 0;
  message_len = 0;
}

unfoldable pub initial : RingBuffer
initial = record { buffer = replicate capacity blank; head = 0; count = 0; dropped = 0 }

-- The entry that `log` leaves in a slot; what lies behind the text is from the slot's last use.
unfoldable pub written : LogEntry → ℕ → LogLevel → List ℕ → LogEntry
written old now level text =
    let n = min (length text) max_message_len in
    record {
      timestamp = now;
      level = level;
      message = take n text ++ drop n old.message;
      message_len = n;
    }

-- `buffer_[i]`
unfoldable pub slot : List LogEntry → ℕ → Outcome LogEntry
slot buffer i = elim (get_elem? buffer i) [ none ↦ undefined | some entry ↦ ok entry ]

unfoldable pub log : RingBuffer → ℕ → LogLevel → List ℕ → Outcome RingBuffer
log r now level text = do
  old ← slot r.buffer r.head
  let full = leb capacity r.count
  ok (record {
    buffer = set r.buffer r.head (written old now level text);
    head = (r.head + 1) % capacity;
    count = if full then r.count else r.count + 1;
    dropped = if full then (r.dropped + 1) % 2 ^ 64 else r.dropped;
  })

-- The copying loop of `flush_pending`, from index `i` on.
unfoldable pub drain : List LogEntry → ℕ → ℕ → ℕ → Outcome (List LogEntry)
drain buffer start i zero = ok []
drain buffer start i (suc left) = do
  entry ← slot buffer ((start + i) % capacity)
  rest ← drain buffer start (i + 1) left
  ok (entry ∷ rest)

-- What `flush_pending` does under the lock: the entries for `write_entries`, and the ring after.
unfoldable pub take_pending : RingBuffer → Outcome (List LogEntry × RingBuffer)
take_pending r = if r.count == 0 then ok ([], r) else do
  drained ← drain r.buffer ((r.head + capacity - r.count) % capacity) 0 r.count
  ok (drained, record r { count = 0 })

unfoldable pub level_name : LogLevel → String
level_name info = "INFO"
level_name warn = "WARN"
level_name error = "ERROR"

-- `std::setfill('0') << std::setw(3)`
unfoldable pub pad3 : ℕ → String
pad3 n =
    if ltb n 10 then "00" <> to_string n else if ltb n 100 then "0" <> to_string n else to_string n

-- The log file and its backups; `none` is a file that does not exist.
abbrev pub Files : Type 0
Files = ℕ → Option (List ℕ)

abbrev pub file_update : Files → ℕ → Option (List ℕ) → Files
file_update files i content j = if j == i then content else files j

-- What the file system does during one `write_entries`: whether the log can be opened, and whether
-- the rename of a file succeeds.
pub record Disk : Type 0 where
  pub can_open : Bool
  pub can_rename : ℕ → Bool

-- Nothing fails.
abbrev pub working : Disk
working = record { can_open = true; can_rename = λ src. true }

-- `std::filesystem::rename` with an error code, which the code ignores: where it fails, and where the
-- file is not there, nothing changes.
unfoldable pub rename : Disk → ℕ → ℕ → Files → Files
rename disk src dst files =
    if disk.can_rename src
    then elim (files src) [
      | none ↦ files
      | some content ↦ file_update (file_update files dst (some content)) src none
    ]
    else files

-- The loop of `rotate_if_needed`, from index `i` down to 2. A rename whose source does not exist is
-- not tried.
unfoldable pub shift_backups : Disk → ℕ → Files → Files
shift_backups disk zero files = files
shift_backups disk (suc zero) files = files
shift_backups disk (suc (suc i)) files =
    shift_backups disk (suc i) (rename disk (suc i) (suc (suc i)) files)

-- `rotate_if_needed`. A negative `max_backups` acts as 0.
unfoldable pub rotate_if_needed : Disk → ℕ → ℕ → Files → Files
rotate_if_needed disk max_file_bytes max_backups files = elim (files 0) [
  | none ↦ files
  | some content ↦
      if ltb (length content) max_file_bytes
      then files
      else rename disk 0 1 (shift_backups disk max_backups files)
]

-- `put_time` stands for `gmtime_r` and `std::put_time` on a number of seconds since the epoch.
module _ (put_time : ℕ → String) where
  unfoldable pub format_timestamp : ℕ → String
  format_timestamp now = put_time (now / 1000) <> ("." <> (pad3 (now % 1000) <> "Z"))

  -- One line of the log.
  unfoldable pub format_entry : LogEntry → List ℕ
  format_entry entry =
      codes (format_timestamp entry.timestamp <> (" [" <> (level_name entry.level <> "] ")))
      ++ (take entry.message_len entry.message ++ (10 ∷ []))

  unfoldable pub format_entries : List LogEntry → List ℕ
  format_entries [] = []
  format_entries (entry ∷ entries) = format_entry entry ++ format_entries entries

  -- `std::ofstream out(log_path_, std::ios::app)`: if the file cannot be opened, nothing is written.
  unfoldable pub append_file : Bool → List ℕ → Files → Files
  append_file false bytes files = files
  append_file true bytes files =
      file_update files 0 (some (elim (files 0) [ none ↦ bytes | some old ↦ old ++ bytes ]))

  unfoldable pub write_entries : Disk → ℕ → ℕ → List LogEntry → Files → Files
  write_entries disk max_file_bytes max_backups [] files = files
  write_entries disk max_file_bytes max_backups (entry ∷ entries) files =
      rotate_if_needed disk max_file_bytes max_backups
        (append_file disk.can_open (format_entries (entry ∷ entries)) files)

  unfoldable pub flush_pending : Disk → ℕ → ℕ → RingBuffer → Files → Outcome (RingBuffer × Files)
  flush_pending disk max_file_bytes max_backups r files = do
    (drained, r') ← take_pending r
    ok (r', write_entries disk max_file_bytes max_backups drained files)
