-- ===== src/State/RingBuffer/Queries.antt =====
-- internal/state/ringbuffer.go: what SumSince and Slice compute from the entries held.
use native.Mathlib.Nat.{zero-add, add-zero, mod-add-mod, le_refl}
use crypto_divergence_engine.Prelude.{
  ℕ, zero, suc, ◌+◌, ◌-◌, ◌%◌, ◌≤◌, ◌<◌, ◌≡◌, inl, inr, refl, sym, ◌∙◌, ap, ap₂, List, [], ◌∷◌, map,
  foldl, arith, length, get_or, ltb→lt, ◌==◌, take_last, drop, drop-map, length-map, if◌then◌else◌,
  ltb, Bool-cases, select,
}
use crypto_divergence_engine.Go.Time.{Time, after_cutoff}
use crypto_divergence_engine.Go.Float.{Float}
use crypto_divergence_engine.State.RingBuffer.{
  RingBuffer, Entry, entry_at, start_of, zero_entry, sum_since, sum_loop, slice, slice_loop,
}
use crypto_divergence_engine.State.RingBuffer.Valid.{IsValid}
use crypto_divergence_engine.State.RingBuffer.Reads.{reads, contents, length-reads}
use crypto_divergence_engine.State.RingBuffer.Slots.{begin, begin_skip}

module _ {F : Type 0} ⦃fl : Float F⦄ where
  sum_loop-eq-foldl :
      (es : List (Entry F)) (now : Time) (window start i n : ℕ) (sum : F)
      → sum_loop es now window start i n sum
        ≡ foldl fl.add sum
            (map (λ e. e.value) (select (λ e. after_cutoff e.at now window) (reads es start i n)))
  unfolding sum_loop
  sum_loop-eq-foldl es now window start i zero sum = refl
  sum_loop-eq-foldl es now window start i (suc n) sum =
      elim (Bool-cases (after_cutoff (entry_at es start i).at now window)) [
        | inl e ↦
            rw (e, select)
              (sum_loop-eq-foldl es now window start (i + 1) n
                (fl.add sum (entry_at es start i).value))
        | inr e ↦ rw (e, select) (sum_loop-eq-foldl es now window start (i + 1) n sum)
      ]

  -- SumSince adds up, oldest first, the values of just the held entries that are after the
  -- cutoff.
  pub sum_since-eq-foldl :
      (r : RingBuffer F) (now : Time) (window : ℕ)
      → sum_since r now window
        ≡ foldl fl.add
            (fl.of_nat 0)
            (map (λ e. e.value) (select (λ e. after_cutoff e.at now window) (contents r)))
  unfolding sum_since
  sum_since-eq-foldl r now window =
      sum_loop-eq-foldl r.entries now window (start_of r r.count) 0 r.count (fl.of_nat 0)

  slice_loop-eq-map :
      (es : List (Entry F)) (start i n : ℕ)
      → slice_loop es start i n ≡ map (λ e. e.value) (reads es start i n)
  unfolding slice_loop
  slice_loop-eq-map es start i zero = refl
  slice_loop-eq-map es start i (suc n) =
      ap (λ l. (entry_at es start i).value ∷ l) (slice_loop-eq-map es start (i + 1) n)

  -- A start that lies `j` steps on skips the first `j` entries.
  reads-skip :
      (es : List (Entry F)) (s j i n : ℕ)
      → reads es ((s + j) % length es) i n ≡ reads es s (i + j) n
  reads-skip es s j i zero = refl
  reads-skip es s j i (suc n) =
      ap₂ ◌∷◌
        (ap (λ k. get_or es k zero_entry)
          (rw mod-add-mod (ap (λ k. k % length es) {x = s + j + i} (omega arith))))
        (reads-skip es s j (i + 1) n ∙ ap (λ k. reads es s k n) {x = i + 1 + j} (omega arith))

  drop-reads :
      (es : List (Entry F)) (s j i n : ℕ) → drop j (reads es s i (j + n)) ≡ reads es s (i + j) n
  drop-reads es s zero i n = rw (zero-add, add-zero)
  drop-reads es s (suc j) i n =
      ap (λ k. drop (suc j) (reads es s i k)) {x = suc j + n} {y = suc (j + n)} (omega arith)
      ∙ drop-reads es s j (i + 1) n
      ∙ ap (λ k. reads es s k n) {x = i + 1 + j} (omega arith)

  -- The last `n` of the `j + n` entries held.
  reads_suffix :
      (es : List (Entry F)) (h j n : ℕ)
      → h < length es
      → j + n ≤ length es
      → reads es (begin h (length es) n) 0 n
        ≡ drop j (reads es (begin h (length es) (j + n)) 0 (j + n))
  reads_suffix es h j n hh le =
      ap (λ b. reads es b 0 n) (begin_skip h j n (length es) hh le)
      ∙ reads-skip es (begin h (length es) (j + n)) j 0 n
      ∙ sym (drop-reads es (begin h (length es) (j + n)) j 0 n)

  slice_held :
      (r : RingBuffer F) (n : ℕ)
      → IsValid r
      → n ≤ r.count
      → (if n == 0 then [] else slice_loop r.entries (start_of r n) 0 n)
        ≡ drop (r.count - n) (map (λ e. e.value) (contents r))
  unfolding slice_loop
  slice_held r n h le =
      drop_test
      ∙ slice_loop-eq-map r.entries (start_of r n) 0 n
      ∙ ap (map (λ e. e.value))
          (reads_suffix r.entries r.head (r.count - n) n h.head_in (omega arith) ∙ whole)
      ∙ sym (drop-map (λ e. e.value) (r.count - n) (contents r))
    where
      drop_test :
          (if n == 0 then [] else slice_loop r.entries (start_of r n) 0 n)
          ≡ slice_loop r.entries (start_of r n) 0 n
      drop_test = elim (Bool-cases (n == 0)) [
        | inl z ↦ let e : n ≡ 0 = ground arith in rw (e, slice_loop)
        | inr nz ↦ rw nz
      ]

      whole :
          drop (r.count - n) (
            reads r.entries (begin r.head (length r.entries) (r.count - n + n)) 0 (r.count - n + n))
          ≡ drop (r.count - n) (contents r)
      whole =
          ap (λ c. drop (r.count - n) (reads r.entries (begin r.head (length r.entries) c) 0 c))
            {x = r.count - n + n} {y = r.count} (omega arith)

  -- Slice(n) on a valid buffer is the values of the last n held entries, oldest first, or of all
  -- if there are fewer.
  pub slice-eq-take_last :
      (r : RingBuffer F) (n : ℕ)
      → IsValid r
      → slice r n ≡ take_last n (map (λ e. e.value) (contents r))
  unfolding slice
  slice-eq-take_last r n h = elim (Bool-cases (ltb r.count n)) [
    | inl more ↦ rw more (
        slice_held r r.count h (le_refl r.count)
        ∙ ap (λ k. drop k (map (λ e. e.value) (contents r))) {x = r.count - r.count}
            (let lt = ltb→lt r.count n more in omega (arith, held)))
    | inr less ↦ rw less (
        slice_held r n h (ground arith)
        ∙ ap (λ k. drop k (map (λ e. e.value) (contents r))) {x = r.count - n}
            (omega (arith, held)))
  ]
    where
      held : length (map (λ e. e.value) (contents r)) ≡ r.count
      held =
          length-map (contents r) (λ e. e.value)
          ∙ length-reads r.entries (start_of r r.count) 0 r.count
