-- ===== src/Dashboard/Backtest/Local.antt =====
-- cmd/dashboard/backtest.go: the bodies of the strategies' loops on closes with more after them.
use crypto_divergence_engine.Prelude.{
  ℕ, zero, suc, ◌+◌, ◌-◌, ◌<◌, ◌≤◌, ◌≡◌, refl, List, ◌++◌, arith, length, Bool-cases, inl, inr,
}
use crypto_divergence_engine.Go.Float.{Float}
use crypto_divergence_engine.Go.Checked.{bind-same, at-append, at}
use crypto_divergence_engine.Dashboard.Indicators.{Band}
use crypto_divergence_engine.Dashboard.Indicators.Causal.{Agrees}
use crypto_divergence_engine.Dashboard.Backtest.{
  Book, crossover_move, rsi_move, bollinger_move, max_loop, breakout_move,
}

module _ {F : Type 0} ⦃fl : Float F⦄ where
  pub crossover_move-same :
      (fast_ma fast_ma' slow_ma slow_ma' : List F) (n i : ℕ) (b : Book F)
      → Agrees n fast_ma fast_ma'
      → Agrees n slow_ma slow_ma'
      → i < n
      → crossover_move fast_ma' slow_ma' i b ≡ crossover_move fast_ma slow_ma i b
  unfolding crossover_move
  crossover_move-same fast_ma fast_ma' slow_ma slow_ma' n i b f s lt =
      bind-same (at fast_ma' (i - 1)) (at fast_ma (i - 1)) _ _ (f (i - 1) (omega arith))
        λ prev_fast.
          bind-same (at slow_ma' (i - 1)) (at slow_ma (i - 1)) _ _ (s (i - 1) (omega arith))
            λ prev_slow.
              bind-same (at fast_ma' i) (at fast_ma i) _ _ (f i lt)
                λ fast. bind-same (at slow_ma' i) (at slow_ma i) _ _ (s i lt) λ slow. refl

  pub rsi_move-same :
      (rsi rsi' : List F) (oversold overbought : F) (n i : ℕ) (b : Book F)
      → Agrees n rsi rsi'
      → i < n
      → rsi_move rsi' oversold overbought i b ≡ rsi_move rsi oversold overbought i b
  unfolding rsi_move
  rsi_move-same rsi rsi' oversold overbought n i b h lt =
      bind-same (at rsi' i) (at rsi i) _ _ (h i lt) λ r. refl

  module _ (xs ys : List F) where
    pub bollinger_move-same :
        (bands bands' : List (Band F)) (i : ℕ) (b : Book F)
        → Agrees (length xs) bands bands'
        → i < length xs
        → bollinger_move (xs ++ ys) bands' i b ≡ bollinger_move xs bands i b
    unfolding bollinger_move
    bollinger_move-same bands bands' i b h lt =
        bind-same (at bands' i) (at bands i) _ _ (h i lt)
          λ band. bind-same (at (xs ++ ys) i) (at xs i) _ _ (at-append xs ys i lt) λ close. refl

    max_loop-same :
        (j count : ℕ) (max_close : F)
        → j + count ≤ length xs
        → max_loop (xs ++ ys) j count max_close ≡ max_loop xs j count max_close
    unfolding max_loop
    max_loop-same j zero max_close h = refl
    max_loop-same j (suc count) max_close h =
        bind-same (at (xs ++ ys) j) (at xs j) _ _ (at-append xs ys j (omega arith))
          λ close. max_loop-same (j + 1) count _ (omega arith)

    pub breakout_move-same :
        (lookback hold_bars i : ℕ) (b : Book F)
        → lookback ≤ i
        → i < length xs
        → breakout_move (xs ++ ys) lookback hold_bars i b ≡ breakout_move xs lookback hold_bars i b
    unfolding breakout_move
    breakout_move-same lookback hold_bars i b le lt = elim (Bool-cases b.in_position) [
      | inl e ↦ rw e refl
      | inr e ↦ rw e (
          bind-same (at (xs ++ ys) (i - lookback)) (at xs (i - lookback)) _ _
            (at-append xs ys (i - lookback) (omega arith))
            λ first.
              bind-same (max_loop (xs ++ ys) (i - lookback + 1) (lookback - 1) first)
                (max_loop xs (i - lookback + 1) (lookback - 1) first) _ _
                (max_loop-same (i - lookback + 1) (lookback - 1) first (omega arith))
                λ max_close.
                  bind-same (at (xs ++ ys) i) (at xs i) _ _ (at-append xs ys i lt) λ close. refl)
    ]
