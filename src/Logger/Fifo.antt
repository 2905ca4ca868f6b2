-- ===== src/Logger/Fifo.antt =====
-- The ring behaves as a queue of bounded length that forgets its oldest entry when it is full.
use openaslc.Base.{
  ℕ, zero, suc, ◌+◌, ◌-◌, ◌%◌, ◌^◌, ◌≤◌, ◌<◌, ◌≡◌, refl, ap, ap₂, ◌∙◌, sym, set, List, [], ◌∷◌,
  ◌++◌, arith, leb, if◌then◌else◌, length, get_or, get_or-set, length-append, drop, take, take_all,
  length-drop, map, min, Bool-cases, inl, inr, leb→le, le→leb, lt→leb,
}
use mathlib.Core.List.{map-append}
use openaslc.Base.Outcome.{ok}
use openaslc.Logger.{LogLevel, LogEntry, RingBuffer, capacity, max_message_len, blank, written, log}
use openaslc.Logger.Ring.{
  IsValid, window, pending, length-pending, logged, log_lem, logged-IsValid, window-set,
  window-snoc, window-shift, drop-window,
}

-- What a reader of the log sees of an entry.
pub record Line : Type 0 where
  pub timestamp : ℕ
  pub level : LogLevel
  pub text : List ℕ

abbrev pub visible : LogEntry → Line
visible entry = record {
  timestamp = entry.timestamp;
  level = entry.level;
  text = take entry.message_len entry.message;
}

-- What a client may know of the logger: the lines not yet flushed, oldest first, and how many have
-- been lost.
pub record Fifo : Type 0 where
  pub lines : List Line
  pub dropped : ℕ

pub push : Fifo → Line → Fifo
push q line =
    if leb capacity (length q.lines)
    then record { lines = drop 1 q.lines ++ (line ∷ []); dropped = (q.dropped + 1) % 2 ^ 64 }
    else record { lines = q.lines ++ (line ∷ []); dropped = q.dropped }

abbrev pub view : RingBuffer → Fifo
view r = record { lines = map visible (pending r); dropped = r.dropped }

module _ (buffer : List LogEntry) (h : ℕ) (entry : LogEntry) where
  after : List LogEntry
  after = set buffer h entry

  get_or-after : (i : ℕ) → h < length buffer → i ≡ h → get_or after i blank ≡ entry
  unfolding after
  get_or-after i b e = ground (arith, get_or-set buffer h i entry blank b)

  window_room :
      (n : ℕ)
      → length buffer ≡ capacity
      → h < capacity
      → n < capacity
      → window after (((h + 1) % capacity + capacity - (n + 1)) % capacity) 0 (n + 1)
        ≡ window buffer ((h + capacity - n) % capacity) 0 n ++ (entry ∷ [])
  unfolding after
  window_room n l hh hn =
      let s = (h + capacity - n) % capacity in
      ap₂ (λ t k. window (set buffer h entry) t 0 k) (omega arith) (omega arith)
      ∙ (window-snoc (set buffer h entry) s 0 n
          ∙ ap₂ (λ xs x. xs ++ (x ∷ []))
              (window-set buffer h entry s 0 n (omega arith) l (λ j p q. omega arith))
              (get_or-after ((s + (0 + n)) % capacity) (omega arith) (omega arith)))

  window_full :
      (n : ℕ)
      → length buffer ≡ capacity
      → h < capacity
      → n ≡ capacity
      → window after (((h + 1) % capacity + capacity - n) % capacity) 0 n
        ≡ drop 1 (window buffer ((h + capacity - n) % capacity) 0 n) ++ (entry ∷ [])
  unfolding after
  window_full zero l hh hn = absurd (omega arith)
  window_full (suc n) l hh hn =
      window-shift (set buffer h entry) (((h + 1) % capacity + capacity - suc n) % capacity) h 0 1
        (suc n) (omega arith)
      ∙ (window-snoc (set buffer h entry) h 1 n
          ∙ ap₂ (λ xs x. xs ++ (x ∷ []))
              (window-set buffer h entry h 1 n (omega arith) l (λ j p q. omega arith)
                ∙ (window-shift buffer h ((h + capacity - suc n) % capacity) 1 1 n (omega arith)
                    ∙ sym (drop-window buffer ((h + capacity - suc n) % capacity) n)))
              (get_or-after ((h + (1 + n)) % capacity) (omega arith) (omega arith)))

pending_room :
    {r : RingBuffer} (entry : LogEntry)
    → IsValid r
    → r.count < capacity
    → pending (logged r entry) ≡ pending r ++ (entry ∷ [])
unfolding after
pending_room {r} entry v h =
    rw (lt→leb capacity r.count h) (window_room r.buffer r.head entry r.count v.size v.head_in h)

pending_full :
    {r : RingBuffer} (entry : LogEntry)
    → IsValid r
    → capacity ≤ r.count
    → pending (logged r entry) ≡ drop 1 (pending r) ++ (entry ∷ [])
unfolding after
pending_full {r} entry v h =
    rw (le→leb capacity r.count h)
      (window_full r.buffer r.head entry r.count v.size v.head_in (omega arith))

pub length-map : (xs : List LogEntry) → length (map visible xs) ≡ length xs
length-map [] = refl
length-map (x ∷ xs) = ap suc (length-map xs)

map-drop : (xs : List LogEntry) → map visible (drop 1 xs) ≡ drop 1 (map visible xs)
map-drop [] = refl
map-drop (x ∷ xs) = refl

view-logged :
    {r : RingBuffer} (entry : LogEntry)
    → IsValid r
    → view (logged r entry) ≡ push (view r) (visible entry)
unfolding push
view-logged {r} entry v = elim (Bool-cases (leb capacity r.count)) [
  | inl full ↦ ground (
    arith,
    length-map (pending r),
    length-pending r,
    pending_full entry v,
    map-append visible (drop 1 (pending r)) (entry ∷ []),
    map-drop (pending r),
  )
  | inr room ↦ ground (
    arith,
    length-map (pending r),
    length-pending r,
    pending_room entry v,
    map-append visible (pending r) (entry ∷ []),
  )
]

take_prefix :
    (text rest : List ℕ) (n : ℕ) → n ≤ length text → take n (take n text ++ rest) ≡ take n text
take_prefix text rest zero h = refl
take_prefix [] rest (suc n) h = absurd (omega arith)
take_prefix (c ∷ text) rest (suc n) h = ap (◌∷◌ c) (take_prefix text rest n (omega arith))

take-min : (text : List ℕ) (n : ℕ) → take (min (length text) n) text ≡ take n text
take-min text n = elim (Bool-cases (leb (length text) n)) [
  | inl short ↦
      let h : length text ≤ n = leb→le _ _ short in
      take_all (min (length text) n) text (omega arith) ∙ sym (take_all n text h)
  | inr long ↦ ap (λ k. take k text) (ground arith)
]

-- The line that `log` makes of its arguments: the text is cut after 160 characters, and nothing of
-- what the slot held before can be seen.
visible-written :
    (old : LogEntry) (now : ℕ) (level : LogLevel) (text : List ℕ)
    → visible (written old now level text)
      ≡ record { timestamp = now; level = level; text = take max_message_len text }
unfolding written
visible-written old now level text = ground (
  arith,
  take_prefix text (drop (min (length text) max_message_len) old.message)
      (min (length text) max_message_len),
  take-min text max_message_len,
)

-- `log` on a valid ring returns a valid ring, which holds what the bounded queue holds after the
-- line, cut after 160 characters, is pushed, and which has lost as many lines.
pub log_refines :
    {r : RingBuffer} (now : ℕ) (level : LogLevel) (text : List ℕ)
    → IsValid r
    → (r' : RingBuffer) × (log r now level text ≡ ok r')
      × IsValid r'
      × (view r'
          ≡ push
              (view r)
              (record { timestamp = now; level = level; text = take max_message_len text }))
log_refines {r} now level text v =
    let entry = written (get_or r.buffer r.head blank) now level text in
    (
      logged r entry,
      log_lem now level text v,
      logged-IsValid entry v,
      view-logged entry v ∙ ap (push (view r)) (visible-written _ now level text),
    )

-- A line goes into the queue, and where there is no room the oldest is counted as dropped.
pub push-count :
    (q : Fifo) (line : Line)
    → q.dropped + 1 < 2 ^ 64
    → (length (push q line).lines + (push q line).dropped ≡ length q.lines + q.dropped + 1)
      × ((push q line).dropped ≤ q.dropped + 1)
unfolding push
push-count q line h = ground (
  arith,
  length-append (drop 1 q.lines) (line ∷ []),
  length-append q.lines (line ∷ []),
  length-drop 1 q.lines,
)
