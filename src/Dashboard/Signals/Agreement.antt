-- ===== src/Dashboard/Signals/Agreement.antt =====
-- cmd/dashboard: the live signal of a crossover against its backtest.
use crypto_divergence_engine.Prelude.{
  ℕ, ◌+◌, ◌-◌, ◌<◌, ◌≤◌, ◌≡◌, refl, sym, ap, ◌∙◌, Bool, true, false, Option, some, List, ltb,
  length, arith, get_elem?, replicate, ◌++◌, length-replicate,
}
use mathlib.Core.Path.{subst}
use crypto_divergence_engine.Go.Text.{Str, bytes}
use crypto_divergence_engine.Go.Time.{Time}
use crypto_divergence_engine.Go.Float.{Float}
use crypto_divergence_engine.Go.Checked.{
  IfReturns, bind-IfReturns, IfReturns-self, IfReturns-weaken, at-append_right, at-fill, fill, at,
}
use crypto_divergence_engine.Dashboard.Indicators.{bar_sma, compute_ema}
use crypto_divergence_engine.Dashboard.Backtest.{
  Book, Move, bars_loop, start_book, crossover_move, ema_averages, sma_averages, moving_averages,
  crossover, decision, run_strategy,
}
use crypto_divergence_engine.Dashboard.Signals.{last_averages, live_signal_crossover}
use crypto_divergence_engine.Dashboard.Signals.Following.{Above, Follows, bars_loop-Follows}

module _ {F : Type 0} ⦃fl : Float F⦄ where
  -- The last cells of the averages of a backtest are those of the live signal.
  ema_averages-last :
      (closes : List F) (fast slow : ℕ)
      → IfReturns
          (λ mas.
            (f s : F)
            → at mas.0 (length closes - 1) ≡ some f
            → at mas.1 (length closes - 1) ≡ some s
            → last_averages closes fast slow true ≡ some (f, s))
          (ema_averages closes fast slow)
  unfolding ema_averages last_averages
  ema_averages-last closes fast slow =
      bind-IfReturns _ _ (compute_ema closes fast) _ (IfReturns-self (compute_ema closes fast))
        λ fe e.
          bind-IfReturns _ _ (compute_ema closes slow) _ (IfReturns-self (compute_ema closes slow))
            λ se e'. λ f s d d'. rw (e, e', d, d') refl

  sma_averages-last :
      (closes : List F) (fast slow : ℕ)
      → slow < length closes
      → IfReturns
          (λ mas.
            (f s : F)
            → at mas.0 (length closes - 1) ≡ some f
            → at mas.1 (length closes - 1) ≡ some s
            → last_averages closes fast slow false ≡ some (f, s))
          (sma_averages closes fast slow)
  unfolding sma_averages last_averages
  sma_averages-last closes fast slow le =
      bind-IfReturns _ _ (cells fast) _ (at-fill (cell fast) slow (length closes - slow))
        λ fast_ma at_f.
          bind-IfReturns _ _ (cells slow) _ (at-fill (cell slow) slow (length closes - slow))
            λ slow_ma at_s. λ f s d d'.
              rw (sym (last_cell fast fast_ma at_f) ∙ d, sym (last_cell slow slow_ma at_s) ∙ d')
                refl
    where
      cell : ℕ → ℕ → Option F
      cell period i = bar_sma closes (i + 1) period

      cells : ℕ → Option (List F)
      cells period = fill (cell period) slow (length closes - slow)

      last_cell :
          (period : ℕ) (ma : List F)
          → ((k : ℕ) → k < length closes - slow → get_elem? ma k ≡ cell period (slow + k))
          → get_elem? (replicate slow (fl.of_nat 0) ++ ma) (length closes - 1)
            ≡ bar_sma closes (length closes) period
      last_cell period ma h =
          at-append_right (replicate slow (fl.of_nat 0)) ma (length closes - 1 - slow)
            (length closes - 1) (omega (arith, le, length-replicate {A = F} slow (fl.of_nat 0)))
          ∙ h (length closes - 1 - slow) (omega (arith, le))
          ∙ ap (λ i. bar_sma closes i period) (omega (arith, le))

  -- The averages of a backtest end with those of the live signal.
  EndsWith : List F → ℕ → ℕ → Bool → List F × List F → Type 0
  EndsWith closes fast slow use_ema mas =
      (f s : F)
      → at mas.0 (length closes - 1) ≡ some f
      → at mas.1 (length closes - 1) ≡ some s
      → last_averages closes fast slow use_ema ≡ some (f, s)

  averages-EndsWith :
      (closes : List F) (fast slow : ℕ) (use_ema : Bool)
      → slow < length closes
      → IfReturns (EndsWith closes fast slow use_ema) (moving_averages closes fast slow use_ema)
  unfolding EndsWith
  averages-EndsWith closes fast slow true le = ema_averages-last closes fast slow
  averages-EndsWith closes fast slow false le = sma_averages-last closes fast slow le

  live_signal-Above :
      (closes : List F) (fast slow : ℕ) (use_ema : Bool) (mas : List F × List F)
      → slow < length closes
      → EndsWith closes fast slow use_ema mas
      → Above mas.0 mas.1 (length closes - 1)
      → live_signal_crossover closes fast slow use_ema ≡ some (bytes "buy")
  unfolding live_signal_crossover EndsWith Above
  live_signal-Above closes fast slow use_ema mas le ends (f, s, d, d', above) =
      rw (enough, ends f s d d', above) refl
    where
      enough : ltb (length closes) (slow + 1) ≡ false
      enough = ground (arith, le)

  -- If the backtest of a crossover (of simple or of exponential averages) on enough closes
  -- returns and ends in a position, then the live signal of the same crossover on the same closes
  -- is "buy".
  pub run_strategy-live_signal :
      (format_date : Time → Str) (closes : List F) (dates : List Time) (fast slow : ℕ)
      (use_ema : Bool) (b : Book F)
      → slow + 2 ≤ length closes
      → run_strategy format_date closes dates (crossover fast slow use_ema) ≡ some b
      → b.in_position ≡ true
      → live_signal_crossover closes fast slow use_ema ≡ some (bytes "buy")
  unfolding run_strategy decision Follows
  run_strategy-live_signal format_date closes dates fast slow use_ema b le e =
      subst (IfReturns Buys) e (
        bind-IfReturns Decides Buys (decision closes (crossover fast slow use_ema)) _
          (bind-IfReturns (EndsWith closes fast slow use_ema) Decides
            (moving_averages closes fast slow use_ema) _
            (averages-EndsWith closes fast slow use_ema (omega (arith, le)))
            λ mas ends. (mas, refl, ends))
          λ decide (mas, same, ends).
            subst (λ d. IfReturns Buys (loop d)) (sym same)
              (IfReturns-weaken (Follows mas.0 mas.1 (length closes)) Buys
                (loop (crossover_move mas.0 mas.1))
                (bars_loop-Follows mas.0 mas.1 format_date closes dates (slow + 1)
                  (length closes - (slow + 1)) (length closes) start_book (omega (arith, le))
                  λ long. absurd (ground (arith, long)))
                λ b' follows long.
                  live_signal-Above closes fast slow use_ema mas (omega (arith, le)) ends
                    (follows long)))
    where
      Buys : Book F → Type 0
      Buys b' =
          b'.in_position ≡ true
          → live_signal_crossover closes fast slow use_ema ≡ some (bytes "buy")

      Decides : (ℕ → Book F → Option Move) → Type 0
      Decides decide =
          (mas : List F × List F) × (decide ≡ crossover_move mas.0 mas.1)
          × EndsWith closes fast slow use_ema mas

      loop : (ℕ → Book F → Option Move) → Option (Book F)
      loop decide =
          bars_loop format_date closes dates decide (slow + 1) (length closes - (slow + 1))
            start_book
