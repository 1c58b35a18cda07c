-- ===== src/Detectors/Correlation/Aligned.antt =====
-- internal/detectors/correlation.go: the two return buffers of a pair side by side.
use crypto_divergence_engine.Prelude.{
  ℕ, ◌-◌, ◌≡◌, refl, sym, ap, ap₂, ◌∙◌, none, some, List, [], ◌∷◌, ◌++◌, map, arith, length,
  length-drop, length-map, drop, drop-map, take_last, Option-cases, Bool-cases, inl, inr, ◌&&◌,
}
use mathlib.Core.Path.{subst, subst₂}
use mathlib.Core.List.{map-append}
use crypto_divergence_engine.Go.Time.{Time, lt_duration-sub}
use crypto_divergence_engine.Go.Float.{Float, gt}
use crypto_divergence_engine.State.RingBuffer.{RingBuffer, Entry, push, slice, len, start_of}
use crypto_divergence_engine.State.RingBuffer.Valid.{
  IsValid, push-IsValid, length-push, new_ring_buffer-IsValid,
}
use crypto_divergence_engine.State.RingBuffer.Reads.{contents, length-reads}
use crypto_divergence_engine.State.RingBuffer.Queries.{slice-eq-take_last}
use crypto_divergence_engine.State.RingBuffer.Refine.{contents-push}
use crypto_divergence_engine.Tick.{Tick}
use crypto_divergence_engine.Detectors.PerSymbol.{run_one}
use crypto_divergence_engine.Detectors.Correlation.Pairs.{HasDurations}
use crypto_divergence_engine.Detectors.Correlation.Throttle.{sampled, step_sampled}
use crypto_divergence_engine.Detectors.Correlation.{
  CorrState, SymbolPair, CorrelationBreakdownDetector, step, evaluate, sample, update_price,
  machine, created, capacity, log_return,
}

module _ {F : Type 0} ⦃fl : Float F⦄ where
  abbrev pub times : RingBuffer F → List Time
  times r = map (λ e. e.at) (contents r)

  -- Both buffers are valid, of one capacity, and hold samples taken at the same times.
  pub record IsAligned (a b : RingBuffer F) : Type 0 where
    pub valid_a : IsValid a
    pub valid_b : IsValid b
    pub size : length a.entries ≡ length b.entries
    pub together : times a ≡ times b

  count-times : (r : RingBuffer F) → length (times r) ≡ r.count
  count-times r =
      length-map (contents r) (λ e. e.at) ∙ length-reads r.entries (start_of r r.count) 0 r.count

  aligned_count : (a b : RingBuffer F) → IsAligned a b → len a ≡ len b
  unfolding len
  aligned_count a b h = sym (count-times a) ∙ ap length h.together ∙ count-times b

  length-slice : (r : RingBuffer F) (n : ℕ) → IsValid r → length (slice r n) ≡ len r - (len r - n)
  unfolding len
  length-slice r n h =
      ap length (slice-eq-take_last r n h)
      ∙ length-drop (length values - n) values
      ∙ ap (λ k. k - (k - n))
          (length-map (contents r) (λ e. e.value)
            ∙ length-reads r.entries (start_of r r.count) 0 r.count)
    where
      values : List F
      values = map (λ e. e.value) (contents r)

  take_last-map :
      (f : Entry F → Time) (n : ℕ) (es : List (Entry F))
      → map f (take_last n es) ≡ take_last n (map f es)
  take_last-map f n es =
      sym (drop-map f (length es - n) es)
      ∙ ap (λ k. drop (k - n) (map f es)) (sym (length-map es f))

  times-push :
      (r : RingBuffer F) (at : Time) (v : F)
      → IsValid r
      → times (push r at v) ≡ take_last (length r.entries) (times r ++ at ∷ [])
  times-push r at v h =
      ap (map (λ e. e.at)) (contents-push r at v h)
      ∙ take_last-map (λ e. e.at) (length r.entries)
          (contents r ++ record { at = at; value = v } ∷ [])
      ∙ ap (take_last (length r.entries))
          (map-append (λ e. e.at) (contents r) (record { at = at; value = v } ∷ []))

  push-IsAligned :
      (a b : RingBuffer F) (at : Time) (x y : F)
      → IsAligned a b
      → IsAligned (push a at x) (push b at y)
  push-IsAligned a b at x y h = record {
    valid_a = push-IsValid at x h.valid_a;
    valid_b = push-IsValid at y h.valid_b;
    size = length-push a at x ∙ h.size ∙ sym (length-push b at y);
    together =
        times-push a at x h.valid_a
        ∙ ap₂ (λ n l. take_last n (l ++ at ∷ [])) h.size h.together
        ∙ sym (times-push b at y h.valid_b);
  }

  abbrev pub StateIsAligned : CorrState F → Type 0
  StateIsAligned s = IsAligned s.returns_a s.returns_b

  pub created-IsAligned : StateIsAligned created
  unfolding created
  created-IsAligned =
      let v = new_ring_buffer-IsValid {F = F} capacity (omega arith) in
      record { valid_a = v.0; valid_b = v.0; size = refl; together = refl }

  sample-IsAligned : (t : Tick F) (s : CorrState F) → StateIsAligned s → StateIsAligned (sample t s)
  unfolding sample
  sample-IsAligned t s h =
      elim (Bool-cases
        (gt s.snapshot_price_a (fl.of_nat 0) && gt s.snapshot_price_b (fl.of_nat 0))) [
          | inl e ↦ rw e (
              push-IsAligned s.returns_a s.returns_b t.timestamp
                (log_return s.latest_price_a s.snapshot_price_a)
                (log_return s.latest_price_b s.snapshot_price_b) h)
          | inr e ↦ rw e h
        ]

  update_price_returns :
      (pair : SymbolPair) (t : Tick F) (s u : CorrState F)
      → update_price pair t s ≡ some u
      → (u.returns_a ≡ s.returns_a) × (u.returns_b ≡ s.returns_b)
  unfolding update_price
  update_price_returns pair t s u e = ground arith

  -- Alignment is a matter of the buffers alone.
  transfer :
      (s u : CorrState F)
      → u.returns_a ≡ s.returns_a
      → u.returns_b ≡ s.returns_b
      → StateIsAligned s
      → StateIsAligned u
  transfer s u a b h = subst₂ IsAligned (sym a) (sym b) h

  module _ (d : CorrelationBreakdownDetector F) (pair : SymbolPair) (ok : HasDurations d) where
    evaluate_returns :
        (t : Tick F) (s : CorrState F)
        → ((evaluate d pair t s).0.returns_a ≡ s.returns_a)
          × ((evaluate d pair t s).0.returns_b ≡ s.returns_b)
    unfolding evaluate
    evaluate_returns t s = ground arith

    sampled-some :
        (t : Tick F) (s0 s : CorrState F)
        → sampled d pair t s0 ≡ some s
        → (u : CorrState F) × (update_price pair t s0 ≡ some u) × (s ≡ sample t u)
    unfolding sampled
    sampled-some t s0 s e = elim (Option-cases (update_price pair t s0)) [
      | inl no_price ↦ absurd (ground arith)
      | inr (u, price) ↦ (u, price, ground arith)
    ]

    sampled-IsAligned :
        (t : Tick F) (s0 s : CorrState F)
        → sampled d pair t s0 ≡ some s
        → StateIsAligned s0
        → StateIsAligned s
    sampled-IsAligned t s0 s e h =
        let (u, price, same) = sampled-some t s0 s e in
        let (a, b) = update_price_returns pair t s0 u price in
        subst StateIsAligned (sym same) (sample-IsAligned t u (transfer s0 u a b h))

    not_sampled_returns :
        (t : Tick F) (s0 : CorrState F)
        → sampled d pair t s0 ≡ none
        → ((step d pair t s0).0.returns_a ≡ s0.returns_a)
          × ((step d pair t s0).0.returns_b ≡ s0.returns_b)
    unfolding step sampled update_price
    not_sampled_returns t s0 e =
        ground (arith, lt_duration-sub t.timestamp s0.snapshot_at d.sample_interval ok.interval)

    -- Whatever the tick, a step keeps the two return buffers of a pair valid and aligned.
    pub step-IsAligned :
        (t : Tick F) (s0 : CorrState F) → StateIsAligned s0 → StateIsAligned (step d pair t s0).0
    step-IsAligned t s0 h = elim (Option-cases (sampled d pair t s0)) [
      | inl e ↦ let (a, b) = not_sampled_returns t s0 e in transfer s0 (step d pair t s0).0 a b h
      | inr (s, e) ↦
          let now = (step_sampled d pair ok.history ok.pause t s0 s ok.interval e).0 in
          let (a, b) = evaluate_returns t s in
          subst (λ r. StateIsAligned r.0) (sym now)
            (transfer s (evaluate d pair t s).0 a b (sampled-IsAligned t s0 s e h))
    ]

    pub run_one-IsAligned :
        (ts : List (Tick F)) (s : CorrState F)
        → StateIsAligned s
        → StateIsAligned (run_one (machine d pair) ts s).0
    unfolding run_one
    run_one-IsAligned [] s h = h
    run_one-IsAligned (t ∷ ts) s h = run_one-IsAligned ts (step d pair t s).0 (step-IsAligned t s h)

    -- With durations that fit an int64, after any ticks the last samples of a pair's two return
    -- buffers, of any number, were taken at the same times; the windows that pearson is given
    -- have one length, and so have the buffers.
    pub slices_together :
        (ts : List (Tick F)) (n : ℕ)
        → let s = (run_one (machine d pair) ts created).0 in
          (take_last n (times s.returns_a) ≡ take_last n (times s.returns_b))
          × (length (slice s.returns_a n) ≡ length (slice s.returns_b n))
          × (len s.returns_a ≡ len s.returns_b)
    slices_together ts n =
        let s = (run_one (machine d pair) ts created).0 in
        let h = run_one-IsAligned ts created created-IsAligned in
        let same = aligned_count s.returns_a s.returns_b h in
        (
          ap (take_last n) h.together,
          length-slice s.returns_a n h.valid_a
              ∙ ap (λ k. k - (k - n)) same
              ∙ sym (length-slice s.returns_b n h.valid_b),
          same,
        )
