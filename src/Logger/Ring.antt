-- ===== src/Logger/Ring.antt =====
-- The ring never reaches outside its array, and holds the entries that are not flushed.
use openaslc.Base.{
  ℕ, zero, suc, ◌+◌, ◌-◌, ◌%◌, ◌^◌, ◌≤◌, ◌<◌, ◌≡◌, refl, ap, ap₂, ◌∙◌, ◌≢◌, set, List, [], ◌∷◌,
  ◌++◌, arith, leb, if◌then◌else◌, length, get_or, get_or-set, length-set, length-replicate,
  get_elem?-eq-get_or, drop,
}
use openaslc.Base.Outcome.{ok}
use openaslc.Logger.{
  LogLevel, LogEntry, RingBuffer, capacity, blank, initial, written, slot, log, drain, take_pending,
}

pub record IsValid (r : RingBuffer) : Type 0 where
  pub size : length r.buffer ≡ capacity
  pub head_in : r.head < capacity
  pub count_in : r.count ≤ capacity

-- The index of the oldest entry.
abbrev pub start : RingBuffer → ℕ
start r = (r.head + capacity - r.count) % capacity

-- `n` entries from the one that is `i` places after index `s`, going round at the capacity.
pub window : List LogEntry → ℕ → ℕ → ℕ → List LogEntry
window buffer s i zero = []
window buffer s i (suc n) = get_or buffer ((s + i) % capacity) blank ∷ window buffer s (i + 1) n

-- The entries that are not yet flushed, oldest first.
abbrev pub pending : RingBuffer → List LogEntry
pending r = window r.buffer (start r) 0 r.count

length-window : (buffer : List LogEntry) (s i n : ℕ) → length (window buffer s i n) ≡ n
unfolding window
length-window buffer s i zero = refl
length-window buffer s i (suc n) = ap suc (length-window buffer s (i + 1) n)

pub length-pending : (r : RingBuffer) → length (pending r) ≡ r.count
length-pending r = length-window r.buffer (start r) 0 r.count

pub initial-IsValid : IsValid initial
unfolding initial
initial-IsValid = record {
  size = length-replicate capacity blank;
  head_in = omega arith;
  count_in = omega arith;
}

slot_in :
    (buffer : List LogEntry) (i : ℕ)
    → i < length buffer
    → slot buffer i ≡ ok (get_or buffer i blank)
unfolding slot
slot_in buffer i h = rw (get_elem?-eq-get_or buffer i blank h, slot)

-- The ring after `log`.
abbrev pub logged : RingBuffer → LogEntry → RingBuffer
logged r entry = record {
  buffer = set r.buffer r.head entry;
  head = (r.head + 1) % capacity;
  count = if leb capacity r.count then r.count else r.count + 1;
  dropped = if leb capacity r.count then (r.dropped + 1) % 2 ^ 64 else r.dropped;
}

pub log_lem :
    {r : RingBuffer} (now : ℕ) (level : LogLevel) (text : List ℕ)
    → IsValid r
    → log r now level text ≡ ok (logged r (written (get_or r.buffer r.head blank) now level text))
unfolding log
log_lem {r} now level text v = rw (slot_in r.buffer r.head (omega arith))

pub logged-IsValid : {r : RingBuffer} (entry : LogEntry) → IsValid r → IsValid (logged r entry)
logged-IsValid {r} entry v = ground (arith, length-set r.buffer r.head entry)

pub drain-window :
    (buffer : List LogEntry) (s i n : ℕ)
    → length buffer ≡ capacity
    → drain buffer s i n ≡ ok (window buffer s i n)
unfolding drain window
drain-window buffer s i zero h = refl
drain-window buffer s i (suc n) h =
    rw (slot_in buffer ((s + i) % capacity) (omega arith)) (rw (drain-window buffer s (i + 1) n h))

window-none : (buffer : List LogEntry) (s i n : ℕ) → n ≡ 0 → window buffer s i n ≡ []
unfolding window
window-none buffer s i zero e = refl
window-none buffer s i (suc n) e = absurd (omega arith)

-- `flush_pending` takes all pending entries, oldest first, and leaves none pending.
pub take_pending_lem :
    {r : RingBuffer} → IsValid r → take_pending r ≡ ok (pending r, record r { count = 0 })
unfolding take_pending
take_pending_lem {r} v = ground (
  arith,
  drain-window r.buffer (start r) 0 r.count v.size,
  window-none r.buffer (start r) 0 r.count,
)

-- Writing outside a window does not change it.
pub window-set :
    (buffer : List LogEntry) (h : ℕ) (entry : LogEntry) (s i n : ℕ)
    → h < length buffer
    → length buffer ≡ capacity
    → ((j : ℕ) → i ≤ j → j < i + n → (s + j) % capacity ≢ h)
    → window (set buffer h entry) s i n ≡ window buffer s i n
unfolding window
window-set buffer h entry s i zero b l out = refl
window-set buffer h entry s i (suc n) b l out =
    ap₂ ◌∷◌ (ground (arith, get_or-set buffer h ((s + i) % capacity) entry blank b, out i))
      (window-set buffer h entry s (i + 1) n b l (λ j p q. out j (omega arith) (omega arith)))

pub window-snoc :
    (buffer : List LogEntry) (s i n : ℕ)
    → window buffer s i (suc n)
      ≡ window buffer s i n ++ (get_or buffer ((s + (i + n)) % capacity) blank ∷ [])
unfolding window
window-snoc buffer s i zero = ap (λ k. get_or buffer ((s + k) % capacity) blank ∷ []) (omega arith)
window-snoc buffer s i (suc n) = ap (◌∷◌ (get_or buffer ((s + i) % capacity) blank)) (
    window-snoc buffer s (i + 1) n
    ∙ ap (λ k. window buffer s (i + 1) n ++ (get_or buffer ((s + k) % capacity) blank ∷ []))
        (omega arith))

-- Starting one place later is the same as starting at the next index.
pub window-shift :
    (buffer : List LogEntry) (s t i j n : ℕ)
    → (s + i) % capacity ≡ (t + j) % capacity
    → window buffer s i n ≡ window buffer t j n
unfolding window
window-shift buffer s t i j zero e = refl
window-shift buffer s t i j (suc n) e =
    ap₂ ◌∷◌ (ap (λ k. get_or buffer k blank) e)
      (window-shift buffer s t (i + 1) (j + 1) n (omega arith))

pub drop-window :
    (buffer : List LogEntry) (s n : ℕ) → drop 1 (window buffer s 0 (suc n)) ≡ window buffer s 1 n
unfolding window
drop-window buffer s n = refl

pub pending_emptied : (r : RingBuffer) → pending (record r { count = 0 }) ≡ []
unfolding window
pending_emptied r = refl
