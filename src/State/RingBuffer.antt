-- ===== src/State/RingBuffer.antt =====
-- internal/state/ringbuffer.go: a circular buffer of timestamped values. A method that changes the
-- buffer returns the new one. Reads and writes of the slice go through `get_or` and `set`, which
-- differ from Go where an index is out of range (Go panics).
pub mod Valid
pub mod Reads
mod Slots
pub mod Refine
pub mod Queries
pub mod History
use crypto_divergence_engine.Prelude.{
  ℕ, zero, suc, ◌+◌, ◌-◌, ◌%◌, List, [], ◌∷◌, ltb, ◌==◌, if◌then◌else◌, length, get_or, set,
  replicate,
}
use crypto_divergence_engine.Go.Time.{Time, after_cutoff}
use crypto_divergence_engine.Go.Float.{Float}

pub record Entry (F : Type 0) : Type 0 where
  pub at : Time
  pub value : F

pub record RingBuffer (F : Type 0) : Type 0 where
  pub entries : List (Entry F)
  pub head : ℕ
  pub count : ℕ

module _ {F : Type 0} ⦃fl : Float F⦄ where
  -- Go's zero value of an Entry
  abbrev pub zero_entry : Entry F
  zero_entry = record { at = 0; value = fl.of_nat 0 }

  unfoldable pub new_ring_buffer : ℕ → RingBuffer F
  new_ring_buffer capacity = record { entries = replicate capacity zero_entry; head = 0; count = 0 }

  unfoldable pub push : RingBuffer F → Time → F → RingBuffer F
  push r at value =
      let len = length r.entries in
      record {
        entries = set r.entries r.head (record { at = at; value = value });
        head = (r.head + 1) % len;
        count = if ltb r.count len then r.count + 1 else r.count;
      }

  -- `start` of SumSince (with n = count) and of Slice: the index of the n-th newest entry
  abbrev pub start_of : RingBuffer F → ℕ → ℕ
  start_of r n = if ltb r.head n then r.head + length r.entries - n else r.head - n

  -- entries[(start+i)%len(entries)]
  abbrev pub entry_at : List (Entry F) → ℕ → ℕ → Entry F
  entry_at es start i = get_or es ((start + i) % length es) zero_entry

  -- The loop of SumSince, with `left` rounds to go.
  unfoldable pub sum_loop : List (Entry F) → Time → ℕ → ℕ → ℕ → ℕ → F → F
  sum_loop es now window start i zero sum = sum
  sum_loop es now window start i (suc left) sum =
      let e = entry_at es start i in
      sum_loop es now window start (i + 1) left
        (if after_cutoff e.at now window then fl.add sum e.value else sum)

  unfoldable pub sum_since : RingBuffer F → Time → ℕ → F
  sum_since r now window =
      sum_loop r.entries now window (start_of r r.count) 0 r.count (fl.of_nat 0)

  unfoldable pub len : RingBuffer F → ℕ
  len r = r.count

  -- The loop of Slice, with `left` rounds to go.
  unfoldable pub slice_loop : List (Entry F) → ℕ → ℕ → ℕ → List F
  slice_loop es start i zero = []
  slice_loop es start i (suc left) = (entry_at es start i).value ∷ slice_loop es start (i + 1) left

  unfoldable pub slice : RingBuffer F → ℕ → List F
  slice r n =
      let n' = if ltb r.count n then r.count else n in
      if n' == 0 then [] else slice_loop r.entries (start_of r n') 0 n'
