-- ===== src/Dashboard/Backtest/Lookahead.antt =====
-- cmd/dashboard/backtest.go: a strategy on some closes, and on those closes with more after them.
use crypto_divergence_engine.Prelude.{
  ℕ, ◌+◌, ◌-◌, ◌<◌, ◌≤◌, ◌≡◌, sym, ap, ◌∙◌, true, false, Option, some, List, ◌++◌, arith, length,
  length-append, get_elem?, replicate,
}
use mathlib.Core.Path.{subst}
use crypto_divergence_engine.Go.Text.{Str}
use crypto_divergence_engine.Go.Time.{Time}
use crypto_divergence_engine.Go.Float.{Float}
use crypto_divergence_engine.Go.Checked.{
  ◌>>=◌, IfReturns, bind-IfReturns, IfReturns-self, IfReturns-weaken, at-append, at-fill, fill,
}
use crypto_divergence_engine.Dashboard.Indicators.{
  bar_sma, compute_ema, compute_rsi, compute_bollinger,
}
use crypto_divergence_engine.Dashboard.Indicators.Causal.{
  Agrees, bar_sma-same, filled-Agrees, compute_bollinger-Keeps,
}
use crypto_divergence_engine.Dashboard.Indicators.Smoothed.{compute_ema-Keeps, compute_rsi-Agrees}
use crypto_divergence_engine.Dashboard.Backtest.{
  Book, Move, bars_loop, start_book, crossover_move, bollinger_move, ema_averages, sma_averages,
  Strategy, crossover, rsi_mean_reversion, bollinger_bands, breakout, bars_needed, warmup, decision,
  run_strategy,
}
use crypto_divergence_engine.Dashboard.Backtest.Safety.{IsSane, warmup-lt}
use crypto_divergence_engine.Dashboard.Backtest.Causal.{
  bars_loop-same, bars_loop-split, bars_loop-Extends, Extends,
}
use crypto_divergence_engine.Dashboard.Backtest.Local.{
  crossover_move-same, rsi_move-same, bollinger_move-same, breakout_move-same,
}

module _ {F : Type 0} ⦃fl : Float F⦄ where
  module _ (xs ys : List F) where
    -- The second body of a loop does at the shorter bars what the first does.
    abbrev DecidesAs : ℕ → (ℕ → Book F → Option Move) → (ℕ → Book F → Option Move) → Type 0
    DecidesAs lo d d' = (i : ℕ) (b : Book F) → lo ≤ i → i < length xs → d' i b ≡ d i b

    abbrev BothAgree : List F × List F → List F × List F → Type 0
    BothAgree mas mas' = Agrees (length xs) mas.0 mas'.0 × Agrees (length xs) mas.1 mas'.1

    ema_averages-Agree :
        (fast slow : ℕ)
        → 0 < fast
        → 0 < slow
        → IfReturns
            (λ mas. IfReturns (BothAgree mas) (ema_averages (xs ++ ys) fast slow))
            (ema_averages xs fast slow)
    unfolding ema_averages
    ema_averages-Agree fast slow f s =
        bind-IfReturns (λ e. IfReturns (Agrees (length xs) e) (compute_ema (xs ++ ys) fast)) _
          (compute_ema xs fast) _ (compute_ema-Keeps xs ys fast f)
          λ fast_ma fast_same.
            bind-IfReturns (λ e. IfReturns (Agrees (length xs) e) (compute_ema (xs ++ ys) slow)) _
              (compute_ema xs slow) _ (compute_ema-Keeps xs ys slow s)
              λ slow_ma slow_same.
                bind-IfReturns (Agrees (length xs) fast_ma) (BothAgree (fast_ma, slow_ma))
                  (compute_ema (xs ++ ys) fast) _ fast_same
                  λ fast_ma' h.
                    bind-IfReturns (Agrees (length xs) slow_ma) (BothAgree (fast_ma, slow_ma))
                      (compute_ema (xs ++ ys) slow) _ slow_same λ slow_ma' h'. (h, h')

    sma_averages-Agree :
        (fast slow : ℕ)
        → slow < length xs
        → IfReturns
            (λ mas. IfReturns (BothAgree mas) (sma_averages (xs ++ ys) fast slow))
            (sma_averages xs fast slow)
    unfolding sma_averages
    sma_averages-Agree fast slow lt =
        bind-IfReturns (At xs fast) _ (cells xs fast) _ (cells-At xs fast) λ fast_ma f.
          bind-IfReturns (At xs slow) _ (cells xs slow) _ (cells-At xs slow) λ slow_ma s.
            bind-IfReturns (At (xs ++ ys) fast)
              (BothAgree
                (replicate slow (fl.of_nat 0) ++ fast_ma, replicate slow (fl.of_nat 0) ++ slow_ma))
              (cells (xs ++ ys) fast) _ (cells-At (xs ++ ys) fast)
              λ fast_ma' f'.
                bind-IfReturns (At (xs ++ ys) slow)
                  (BothAgree (
                    replicate slow (fl.of_nat 0) ++ fast_ma,
                    replicate slow (fl.of_nat 0) ++ slow_ma,
                  ))
                  (cells (xs ++ ys) slow) _ (cells-At (xs ++ ys) slow)
                  λ slow_ma' s'.
                    (agree fast fast_ma fast_ma' f f', agree slow slow_ma slow_ma' s s')
      where
        cells : List F → ℕ → Option (List F)
        cells closes period = fill (λ i. bar_sma closes (i + 1) period) slow (length closes - slow)

        At : List F → ℕ → List F → Type 0
        At closes period ma =
            (k : ℕ)
            → k < length closes - slow
            → get_elem? ma k ≡ bar_sma closes (slow + k + 1) period

        cells-At :
            (closes : List F) (period : ℕ) → IfReturns (At closes period) (cells closes period)
        cells-At closes period =
            at-fill (λ i. bar_sma closes (i + 1) period) slow (length closes - slow)

        agree :
            (period : ℕ) (ma ma' : List F)
            → At xs period ma
            → At (xs ++ ys) period ma'
            → Agrees
                (length xs)
                (replicate slow (fl.of_nat 0) ++ ma)
                (replicate slow (fl.of_nat 0) ++ ma')
        agree period ma ma' h h' i upto =
            filled-Agrees (fl.of_nat 0) slow (length xs - slow) (length (xs ++ ys) - slow)
              (λ j. bar_sma xs (j + 1) period) (λ j. bar_sma (xs ++ ys) (j + 1) period) ma ma'
              (omega (arith, length-append {0} xs ys)) h h'
              (λ j from below. bar_sma-same xs ys (j + 1) period (omega (arith, below, lt))) i
              (omega (arith, upto, lt))

    decision-DecidesAs :
        (s : Strategy F)
        → bars_needed s ≤ length xs
        → IsSane s
        → IfReturns
            (λ d. IfReturns (DecidesAs (warmup s) d) (decision (xs ++ ys) s))
            (decision xs s)
    unfolding decision
    decision-DecidesAs (crossover fast slow true) le (f, s) =
        bind-IfReturns _ _ (ema_averages xs fast slow) _ (ema_averages-Agree fast slow f s)
          λ mas same.
            bind-IfReturns (BothAgree mas) (DecidesAs (slow + 1) (crossover_move mas.0 mas.1))
              (ema_averages (xs ++ ys) fast slow) _ same
              λ mas' h i b from upto.
                crossover_move-same mas.0 mas'.0 mas.1 mas'.1 (length xs) i b h.0 h.1 upto
    decision-DecidesAs (crossover fast slow false) le sane =
        bind-IfReturns _ _ (sma_averages xs fast slow) _
          (sma_averages-Agree fast slow (omega (arith, le)))
          λ mas same.
            bind-IfReturns (BothAgree mas) (DecidesAs (slow + 1) (crossover_move mas.0 mas.1))
              (sma_averages (xs ++ ys) fast slow) _ same
              λ mas' h i b from upto.
                crossover_move-same mas.0 mas'.0 mas.1 mas'.1 (length xs) i b h.0 h.1 upto
    decision-DecidesAs (rsi_mean_reversion period oversold overbought) le sane = λ i b from upto.
        rsi_move-same (compute_rsi xs period) (compute_rsi (xs ++ ys) period) oversold overbought
          (length xs) i b (compute_rsi-Agrees xs ys period (omega (arith, le))) upto
    decision-DecidesAs (bollinger_bands period std_devs) le sane =
        bind-IfReturns _ _ (compute_bollinger xs period std_devs) _
          (compute_bollinger-Keeps xs ys period std_devs sane (omega (arith, le)))
          λ bands same.
            bind-IfReturns (Agrees (length xs) bands) (DecidesAs period (bollinger_move xs bands))
              (compute_bollinger (xs ++ ys) period std_devs) _ same
              λ bands' h i b from upto. bollinger_move-same xs ys bands bands' i b h upto
    decision-DecidesAs (breakout lookback hold_bars) le sane =
        λ i b from upto. breakout_move-same xs ys lookback hold_bars i b from upto

    module _ (format_date : Time → Str) (dates later : List Time) where
      run_strategy-Extends :
          (s : Strategy F)
          → length dates ≡ length xs
          → bars_needed s ≤ length xs
          → IsSane s
          → IfReturns
              (λ b.
                IfReturns
                  (Extends (length xs) b)
                  (run_strategy format_date (xs ++ ys) (dates ++ later) s))
              (run_strategy format_date xs dates s)
      unfolding run_strategy
      run_strategy-Extends s size le sane =
          bind-IfReturns (λ d. IfReturns (DecidesAs (warmup s) d) (decision (xs ++ ys) s)) _
            (decision xs s) _ (decision-DecidesAs s le sane)
            λ d same.
              IfReturns-weaken (λ b. loop d ≡ some b) _ (loop d) (IfReturns-self (loop d))
                λ b e.
                  bind-IfReturns (DecidesAs (warmup s) d) (Extends (length xs) b)
                    (decision (xs ++ ys) s) _ same
                    λ d' follows.
                      subst (IfReturns (Extends (length xs) b)) (sym (resumed d d' b follows e)) (
                        bars_loop-Extends format_date (xs ++ ys) (dates ++ later) d' (length xs)
                          (length (xs ++ ys) - length xs) b)
        where
          loop : (ℕ → Book F → Option Move) → Option (Book F)
          loop d = bars_loop format_date xs dates d (warmup s) (length xs - warmup s) start_book

          -- the longer loop goes on from the book of the shorter
          resumed :
              (d d' : ℕ → Book F → Option Move) (b : Book F)
              → DecidesAs (warmup s) d d'
              → loop d ≡ some b
              → bars_loop format_date
                  (xs ++ ys)
                  (dates ++ later)
                  d'
                  (warmup s)
                  (length (xs ++ ys) - warmup s)
                  start_book
                ≡ bars_loop format_date
                    (xs ++ ys)
                    (dates ++ later)
                    d'
                    (length xs)
                    (length (xs ++ ys) - length xs)
                    b
          resumed d d' b follows e =
              bars_loop-split format_date (xs ++ ys) (dates ++ later) d' (warmup s)
                (length xs - warmup s) (length (xs ++ ys) - length xs) (length xs)
                (length (xs ++ ys) - warmup s) start_book (omega (arith, le, warmup-lt s))
                (omega (arith, le, warmup-lt s, length-append {0} xs ys))
              ∙ ap (λ o. o >>= rest)
                  (bars_loop-same format_date xs (xs ++ ys) dates (dates ++ later) (length xs)
                      (λ i lt. at-append xs ys i lt)
                      (λ i lt. at-append dates later i (omega (arith, lt, size))) d d' (warmup s)
                      (length xs - warmup s) start_book follows (omega (arith, le, warmup-lt s))
                    ∙ e)
            where
              rest : Book F → Option (Book F)
              rest b' =
                  bars_loop format_date (xs ++ ys) (dates ++ later) d' (length xs)
                    (length (xs ++ ys) - length xs) b'

      -- No strategy looks ahead: for as many dates as closes, enough closes, and averages with
      -- positive periods, if the loop of a strategy returns on the closes and also on the closes
      -- with more after them, then its events on the longer are its events on the shorter,
      -- followed by events at the added bars.
      pub no_lookahead :
          (s : Strategy F) (b b' : Book F)
          → length dates ≡ length xs
          → bars_needed s ≤ length xs
          → IsSane s
          → run_strategy format_date xs dates s ≡ some b
          → run_strategy format_date (xs ++ ys) (dates ++ later) s ≡ some b'
          → Extends (length xs) b b'
      no_lookahead s b b' size le sane e e' = subst (IfReturns (Extends (length xs) b)) e' (
          subst
            (IfReturns (λ c.
              IfReturns (Extends (length xs) c)
                (run_strategy format_date (xs ++ ys) (dates ++ later) s)))
            e (run_strategy-Extends s size le sane))
