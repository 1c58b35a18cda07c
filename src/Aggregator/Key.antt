-- ===== src/Aggregator/Key.antt =====
-- cmd/aggregator: which alerts share a key, with the window of one minute that main sets.
use crypto_divergence_engine.Prelude.{
  ℕ, ◌+◌, ◌%◌, ◌≡◌, ◌↔◌, sym, ap₂, ◌∙◌, true, false, ◌++◌, arith, Bool-cases, inl, inr,
}
use crypto_divergence_engine.Go.Text.{bytes, format_int, str_eq, str_eq_iff}
use crypto_divergence_engine.Go.Text.Digits.{
  NoColon, first_colon, last_colon, format_int-NoColon, format_int_injective,
}
use crypto_divergence_engine.Go.Map.{lookup, insert}
use crypto_divergence_engine.Go.Time.{Time, minute, truncate, unix}
use crypto_divergence_engine.Alert.{Alert}
use crypto_divergence_engine.Aggregator.{new_deduper, dedup_key, is_dup}

-- Unix seconds tell the whole minutes apart.
unix-truncate_injective :
    (s t : Time)
    → unix (truncate s minute) ≡ unix (truncate t minute)
    → truncate s minute ≡ truncate t minute
unfolding unix truncate
unix-truncate_injective s t h = ground arith

-- The second of two alerts for a new deduper is a duplicate if the keys are equal.
two_calls :
    {F : Type 0} (a b : Alert F) (w : ℕ) (t u : Time)
    → (is_dup b u (is_dup a t (new_deduper w)).0).1 ≡ str_eq (dedup_key w a) (dedup_key w b)
unfolding is_dup new_deduper lookup insert
two_calls a b w t u = ground arith

module _ {F : Type 0} (a b : Alert F) (plain_a : NoColon a.detector)
    (plain_b : NoColon b.detector) where
  -- Two alerts of detectors whose names have no colon share a key, with a window of one minute,
  -- exactly if they are of one detector and one symbol, and their timestamps are in the same
  -- minute of the clock.
  pub dedup_key_iff : (dedup_key minute a ≡ dedup_key minute b) ↔ (
      (a.detector ≡ b.detector)
      × (a.symbol ≡ b.symbol)
      × (truncate a.timestamp minute ≡ truncate b.timestamp minute))
  unfolding dedup_key
  dedup_key_iff = (
    λ e.
        let (detector, rest) = first_colon a.detector b.detector _ _ plain_a plain_b e in
        let (symbol, stamp) =
          last_colon a.symbol b.symbol (format_int (unix (truncate a.timestamp minute)))
            (format_int (unix (truncate b.timestamp minute))) (format_int-NoColon _)
            (format_int-NoColon _) rest in
        (
          detector,
          symbol,
          unix-truncate_injective a.timestamp b.timestamp (format_int_injective _ _ stamp),
        ),
    λ h.
        ap₂ (λ d r. d ++ (bytes ":" ++ r)) h.0
          (ap₂ (λ s i. s ++ (bytes ":" ++ format_int (unix i))) h.1 h.2),
  )

  -- For detectors whose names have no colon, after a new deduper of one minute has passed on an
  -- alert, a second one is a duplicate exactly if it is of the same detector, symbol and minute.
  pub is_dup_second :
      (t u : Time)
      → ((is_dup b u (is_dup a t (new_deduper minute)).0).1 ≡ true) ↔ (
          (a.detector ≡ b.detector)
          × (a.symbol ≡ b.symbol)
          × (truncate a.timestamp minute ≡ truncate b.timestamp minute))
  is_dup_second t u = (
    λ dup. dedup_key_iff.0 (
        (str_eq_iff (dedup_key minute a) (dedup_key minute b)).0
          (sym (two_calls a b minute t u) ∙ dup)),
    λ same.
        two_calls a b minute t u
        ∙ (str_eq_iff (dedup_key minute a) (dedup_key minute b)).1 (dedup_key_iff.1 same),
  )

  -- The window does not roll: for detectors whose names have no colon, of two alerts one
  -- nanosecond apart, either side of a full minute, both are passed on.
  pub minute_boundary :
      (t u : Time)
      → b.timestamp ≡ a.timestamp + 1
      → b.timestamp % minute ≡ 0
      → (is_dup b u (is_dup a t (new_deduper minute)).0).1 ≡ false
  minute_boundary t u next full =
      elim (Bool-cases (is_dup b u (is_dup a t (new_deduper minute)).0).1) [
        | inl dup ↦
            let same = ((is_dup_second t u).0 dup).2 in absurd (unfold truncate in omega arith)
        | inr fresh ↦ fresh
      ]
