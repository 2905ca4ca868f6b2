-- ===== src/Logger/Writes.antt =====
-- What a flush writes: `flush_pending`, `write_entries` and the format of a line.
use openaslc.Base.{
  ℕ, ◌/◌, ◌%◌, ◌<◌, ◌≡◌, ◌≢◌, refl, sym, subst, ap, ap₂, Bool, true, false, List, [], ◌∷◌, ◌++◌,
  Option, none, some, map, arith, String,
}
use openaslc.Base.Bits.{holds_below, holds_below_at}
use openaslc.Base.Outcome.{ok}
use openaslc.Base.Text.{codes, ◌<>◌, to_string, str_eq, eq_iff}
use openaslc.Logger.{
  LogLevel, info, warn, error, LogEntry, RingBuffer, Disk, Files, pad3, level_name,
  format_timestamp, format_entry, format_entries, append_file, write_entries, rotate_if_needed,
  flush_pending,
}
use openaslc.Logger.Ring.{IsValid, pending, take_pending_lem}
use openaslc.Logger.Fifo.{Line, visible}

-- A number below 1000 with three digits.
abbrev pub three_digits : ℕ → String
three_digits n = to_string (n / 100) <> (to_string (n / 10 % 10) <> to_string (n % 10))

abbrev pub name_of : LogLevel → String
name_of info = "INFO"
name_of warn = "WARN"
name_of error = "ERROR"

abbrev pad3_row : ℕ → Bool
pad3_row n = str_eq (pad3 n) (three_digits n)

pad3_table : holds_below pad3_row 1000 ≡ true
unfolding holds_below pad3 to_string
pad3_table = refl

pad3_lem : (n : ℕ) → n < 1000 → pad3 n ≡ three_digits n
pad3_lem n h = (eq_iff (pad3 n) (three_digits n)).0 (holds_below_at pad3_row n 1000 h pad3_table)

level_name_lem : (level : LogLevel) → level_name level ≡ name_of level
unfolding level_name
level_name_lem info = refl
level_name_lem warn = refl
level_name_lem error = refl

-- What a file holds, if there is one.
abbrev pub content : Option (List ℕ) → List ℕ
content none = []
content (some bytes) = bytes

module _ (put_time : ℕ → String) where
  -- The line of the log file: the time with its milliseconds, the level, the text, and a line feed.
  abbrev pub line_text : Line → List ℕ
  line_text l =
      codes (
        (put_time (l.timestamp / 1000) <> ("." <> (three_digits (l.timestamp % 1000) <> "Z")))
        <> (" [" <> (name_of l.level <> "] ")))
      ++ (l.text ++ (10 ∷ []))

  abbrev pub log_text : List Line → List ℕ
  log_text [] = []
  log_text (l ∷ lines) = line_text l ++ log_text lines

  format_entry_lem : (entry : LogEntry) → format_entry put_time entry ≡ line_text (visible entry)
  unfolding format_entry format_timestamp
  format_entry_lem entry =
      rw (pad3_lem (entry.timestamp % 1000) (omega arith), level_name_lem entry.level) refl

  format_entries_lem :
      (entries : List LogEntry) → format_entries put_time entries ≡ log_text (map visible entries)
  unfolding format_entries
  format_entries_lem [] = refl
  format_entries_lem (entry ∷ entries) =
      ap₂ ◌++◌ (format_entry_lem entry) (format_entries_lem entries)

  -- How a flush of these lines ends: what the files are before a rotation, if there is one.
  pub data FlushEnds (disk : Disk) (max_file_bytes max_backups : ℕ) (lines : List Line)
      (files : Files) : Files → Type 0 where
    nothing_pending : lines ≡ [] → FlushEnds disk max_file_bytes max_backups lines files files
    appended :
        (files' : Files)
        → disk.can_open ≡ true
        → files' 0 ≡ some (content (files 0) ++ log_text lines)
        → ((i : ℕ) → i ≢ 0 → files' i ≡ files i)
        → FlushEnds disk max_file_bytes max_backups lines files
            (rotate_if_needed disk max_file_bytes max_backups files')
    not_written :
        disk.can_open ≡ false
        → FlushEnds disk max_file_bytes max_backups lines files
            (rotate_if_needed disk max_file_bytes max_backups files)

  append_lem :
      (bytes : List ℕ) (files : Files)
      → append_file put_time true bytes files 0 ≡ some (content (files 0) ++ bytes)
  unfolding append_file
  append_lem bytes files = ap some (by_content (files 0))
    where
      by_content :
          (old : Option (List ℕ))
          → (elim old [ none ↦ bytes | some written ↦ written ++ bytes ]) ≡ content old ++ bytes
      by_content none = refl
      by_content (some written) = refl

  append_elsewhere :
      (bytes : List ℕ) (files : Files) (i : ℕ)
      → i ≢ 0
      → append_file put_time true bytes files i ≡ files i
  unfolding append_file
  append_elsewhere bytes files i h = ground arith

  -- After the log has been opened, or not.
  append-FlushEnds :
      (disk : Disk) (max_file_bytes max_backups : ℕ) (lines : List Line) (files : Files)
      (opens : Bool)
      → disk.can_open ≡ opens
      → FlushEnds disk max_file_bytes max_backups lines files (
          rotate_if_needed disk max_file_bytes max_backups
            (append_file put_time opens (log_text lines) files))
  unfolding append_file
  append-FlushEnds disk max_file_bytes max_backups lines files true e =
      appended _ e (append_lem (log_text lines) files) (append_elsewhere (log_text lines) files)
  append-FlushEnds disk max_file_bytes max_backups lines files false e = not_written e

  write_entries-FlushEnds :
      (disk : Disk) (max_file_bytes max_backups : ℕ) (entries : List LogEntry) (files : Files)
      → FlushEnds disk max_file_bytes max_backups
          (map visible entries)
          files
          (write_entries put_time disk max_file_bytes max_backups entries files)
  unfolding write_entries
  write_entries-FlushEnds disk max_file_bytes max_backups [] files = nothing_pending refl
  write_entries-FlushEnds disk max_file_bytes max_backups (entry ∷ entries) files =
      subst
        (λ (bytes : List ℕ).
          FlushEnds disk max_file_bytes max_backups (map visible (entry ∷ entries)) files (
            rotate_if_needed disk max_file_bytes max_backups
              (append_file put_time disk.can_open bytes files)))
        (sym (format_entries_lem (entry ∷ entries)))
        (append-FlushEnds disk max_file_bytes max_backups (map visible (entry ∷ entries)) files
          disk.can_open refl)

  -- A flush of a valid ring returns and leaves nothing pending. Where lines are pending and the log
  -- can be opened, it appends them to the log, oldest first, each as its time with three digits of
  -- milliseconds, its level in brackets, its text and a line feed, changes no backup, and then
  -- rotates; where the log cannot be opened, these lines are lost.
  pub flush_pending-FlushEnds :
      (disk : Disk) (max_file_bytes max_backups : ℕ) (r : RingBuffer) (files : Files)
      → IsValid r
      → (files' : Files) × (flush_pending put_time disk max_file_bytes max_backups r files
          ≡ ok (record r { count = 0 }, files'))
        × FlushEnds disk max_file_bytes max_backups (map visible (pending r)) files files'
  unfolding flush_pending
  flush_pending-FlushEnds disk max_file_bytes max_backups r files v = (
    write_entries put_time disk max_file_bytes max_backups (pending r) files,
    rw (take_pending_lem v) refl,
    write_entries-FlushEnds disk max_file_bytes max_backups (pending r) files,
  )
