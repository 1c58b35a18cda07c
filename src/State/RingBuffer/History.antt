-- ===== src/State/RingBuffer/History.antt =====
-- A ring buffer against the whole history of what was pushed into it: the form in which the detectors
-- use the buffer's theorems.
use crypto_divergence_engine.Prelude.{
  ℕ, ◌<◌, ◌≡◌, sym, ap, ◌∙◌, List, [], ◌∷◌, ◌++◌, map, foldl, arith, length, select, take_last,
  take_last-append, take_last-all,
}
use crypto_divergence_engine.Go.Time.{Time, after_cutoff}
use crypto_divergence_engine.Go.Float.{Float}
use crypto_divergence_engine.State.RingBuffer.{RingBuffer, Entry, new_ring_buffer, push, sum_since}
use crypto_divergence_engine.State.RingBuffer.Valid.{
  IsValid, push-IsValid, length-push, new_ring_buffer-IsValid,
}
use crypto_divergence_engine.State.RingBuffer.Reads.{contents}
use crypto_divergence_engine.State.RingBuffer.Refine.{contents-push}
use crypto_divergence_engine.State.RingBuffer.Queries.{sum_since-eq-foldl}

module _ {F : Type 0} ⦃fl : Float F⦄ where
  -- the sum, in order, of the values of the last `capacity` entries that are after the cutoff
  abbrev pub window_sum : ℕ → ℕ → Time → List (Entry F) → F
  window_sum capacity window now es =
      foldl fl.add (fl.of_nat 0)
        (map (λ e. e.value) (select (λ e. after_cutoff e.at now window) (take_last capacity es)))

  -- The buffer has the capacity, and holds the last entries of the history.
  pub record Holds (capacity : ℕ) (r : RingBuffer F) (es : List (Entry F)) : Type 0 where
    pub valid : IsValid r
    pub size : length r.entries ≡ capacity
    pub held : contents r ≡ take_last capacity es

  pub new_ring_buffer-Holds :
      (capacity : ℕ) → 0 < capacity → Holds capacity (new_ring_buffer capacity) []
  unfolding new_ring_buffer
  new_ring_buffer-Holds capacity h =
      let (valid, empty, size) = new_ring_buffer-IsValid {F = F} capacity h in
      record { valid = valid; size = size; held = sym (take_last-all capacity [] (omega arith)) }

  pub push-Holds :
      (capacity : ℕ) (r : RingBuffer F) (es : List (Entry F)) (at : Time) (v : F)
      → Holds capacity r es
      → Holds capacity (push r at v) (es ++ record { at = at; value = v } ∷ [])
  push-Holds capacity r es at v h = record {
    valid = push-IsValid at v h.valid;
    size = length-push r at v ∙ h.size;
    held =
        contents-push r at v h.valid
        ∙ ap (λ n. take_last n (contents r ++ e ∷ [])) h.size
        ∙ ap (λ l. take_last capacity (l ++ e ∷ [])) h.held
        ∙ take_last-append capacity es (e ∷ []);
  }
    where
      e : Entry F
      e = record { at = at; value = v }

  pub sum_since-Holds :
      (capacity : ℕ) (r : RingBuffer F) (es : List (Entry F)) (now : Time) (window : ℕ)
      → Holds capacity r es
      → sum_since r now window ≡ window_sum capacity window now es
  sum_since-Holds capacity r es now window h =
      sum_since-eq-foldl r now window
      ∙ ap
          (λ l.
            foldl fl.add (fl.of_nat 0)
              (map (λ e. e.value) (select (λ e. after_cutoff e.at now window) l)))
          h.held
