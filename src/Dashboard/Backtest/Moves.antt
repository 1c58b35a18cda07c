-- ===== src/Dashboard/Backtest/Moves.antt =====
-- cmd/dashboard/backtest.go: the bodies of the strategies' loops, their reads and their moves.
use crypto_divergence_engine.Prelude.{
  ℕ, zero, suc, ◌+◌, ◌-◌, ◌<◌, ◌≤◌, refl, Bool, true, false, not, ◌&&◌, List, if◌then◌else◌, arith,
  length, Bool-cases, inl, inr,
}
use crypto_divergence_engine.Prelude.Int.{pos, ltb_ℤ}
use crypto_divergence_engine.Go.Float.{Float, gt}
use crypto_divergence_engine.Go.Checked.{Returns, returns, bind-Returns, at-Returns, add_int}
use crypto_divergence_engine.Dashboard.Indicators.{Band}
use crypto_divergence_engine.Dashboard.Indicators.Bounds.{Any}
use crypto_divergence_engine.Dashboard.Backtest.{
  Book, stay, buy, sell, crossover_move, rsi_move, bollinger_move, max_loop, breakout_move,
}
use crypto_divergence_engine.Dashboard.Backtest.Ledger.{Fits}

cross-Fits :
    (before now long : Bool)
    → Fits long (
        if not before && (now && not long)
        then buy
        else if before && (not now && long)
        then sell
        else stay)
cross-Fits true true long = tt
cross-Fits true false true = refl
cross-Fits true false false = tt
cross-Fits false true true = tt
cross-Fits false true false = refl
cross-Fits false false long = tt

signal-Fits :
    (skip low high long : Bool)
    → Fits long (
        if skip then stay else if low && not long then buy else if high && long then sell else stay)
signal-Fits true low high long = tt
signal-Fits false true true true = refl
signal-Fits false true false true = tt
signal-Fits false true high false = refl
signal-Fits false false true true = refl
signal-Fits false false false true = tt
signal-Fits false false true false = tt
signal-Fits false false false false = tt

module _ {F : Type 0} ⦃fl : Float F⦄ where
  pub max_loop-Returns :
      (closes : List F) (j count : ℕ) (max_close : F)
      → j + count ≤ length closes
      → Returns Any (max_loop closes j count max_close)
  unfolding max_loop
  max_loop-Returns closes j zero max_close h = returns tt
  max_loop-Returns closes j (suc count) max_close h =
      bind-Returns (at-Returns closes j (omega arith))
        λ close e. max_loop-Returns closes (j + 1) count _ (omega arith)

  pub crossover_move-Returns :
      (fast_ma slow_ma : List F) (i : ℕ) (b : Book F)
      → i < length fast_ma
      → i < length slow_ma
      → Returns (Fits b.in_position) (crossover_move fast_ma slow_ma i b)
  unfolding crossover_move
  crossover_move-Returns fast_ma slow_ma i b in_fast in_slow =
      bind-Returns (at-Returns fast_ma (i - 1) (omega arith)) λ prev_fast e.
        bind-Returns (at-Returns slow_ma (i - 1) (omega arith)) λ prev_slow e'.
          bind-Returns (at-Returns fast_ma i in_fast) λ fast e''.
            bind-Returns (at-Returns slow_ma i in_slow) λ slow e'''.
              returns (cross-Fits (gt prev_fast prev_slow) (gt fast slow) b.in_position)

  pub rsi_move-Returns :
      (rsi : List F) (oversold overbought : F) (i : ℕ) (b : Book F)
      → i < length rsi
      → Returns (Fits b.in_position) (rsi_move rsi oversold overbought i b)
  unfolding rsi_move
  rsi_move-Returns rsi oversold overbought i b lt = bind-Returns (at-Returns rsi i lt) λ r e.
      returns
        (signal-Fits (fl.eq r (fl.of_nat 0)) (fl.lt r oversold) (gt r overbought) b.in_position)

  pub bollinger_move-Returns :
      (closes : List F) (bands : List (Band F)) (i : ℕ) (b : Book F)
      → i < length closes
      → i < length bands
      → Returns (Fits b.in_position) (bollinger_move closes bands i b)
  unfolding bollinger_move
  bollinger_move-Returns closes bands i b in_closes in_bands =
      bind-Returns (at-Returns bands i in_bands) λ band e.
        bind-Returns (at-Returns closes i in_closes) λ close e'. returns (
          signal-Fits (fl.eq band.lower (fl.of_nat 0)) (fl.lt close band.lower)
            (gt close band.middle) b.in_position)

  pub breakout_move-Returns :
      (closes : List F) (lookback hold_bars i : ℕ) (b : Book F)
      → i < length closes
      → lookback ≤ i
      → Returns (Fits b.in_position) (breakout_move closes lookback hold_bars i b)
  unfolding breakout_move
  breakout_move-Returns closes lookback hold_bars i b lt le = elim (Bool-cases b.in_position) [
    | inl e ↦ rw e (returns (held-Fits (ltb_ℤ (pos i) (add_int b.entry_bar hold_bars))))
    | inr e ↦ rw e (
        bind-Returns (at-Returns closes (i - lookback) (omega arith)) λ first e'.
          bind-Returns
            (max_loop-Returns closes (i - lookback + 1) (lookback - 1) first (room lookback le))
            λ max_close p.
              bind-Returns (at-Returns closes i lt)
                λ close e''. returns (free-Fits (gt close max_close)))
  ]
    where
      held-Fits : (early : Bool) → Fits true (if early then stay else sell)
      held-Fits true = tt
      held-Fits false = refl

      free-Fits : (above : Bool) → Fits false (if above then buy else stay)
      free-Fits true = refl
      free-Fits false = tt

      room : (l : ℕ) → l ≤ i → i - l + 1 + (l - 1) ≤ length closes
      room l le = omega (arith, le, lt)
