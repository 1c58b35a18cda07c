-- ===== src/Dashboard/Signals/Following.antt =====
-- cmd/dashboard/backtest.go: the position of a crossover and its averages.
use crypto_divergence_engine.Prelude.{
  ℕ, zero, suc, ◌+◌, ◌-◌, ◌≡◌, refl, ◌&&◌, Bool, true, false, not, some, List, if◌then◌else◌, arith,
}
use mathlib.Core.Path.{subst}
use crypto_divergence_engine.Go.Text.{Str, bytes}
use crypto_divergence_engine.Go.Time.{Time}
use crypto_divergence_engine.Go.Float.{Float, gt}
use crypto_divergence_engine.Go.Checked.{IfReturns, bind-IfReturns, IfReturns-self, at}
use crypto_divergence_engine.Dashboard.Backtest.{
  Book, Move, stay, buy, sell, event_at, apply_move, bars_loop, crossover_move,
}

-- What a move leaves of a position, where `Before` and `After` say that the fast average is above.
abbrev Leaves : Type 0 → Type 0 → Bool → Move → Type 0
Leaves Before After long stay = long ≡ true → Before → After
Leaves Before After long buy = After
Leaves Before After long sell = Unit

cross-Leaves :
    {Before After : Type 0} (before now long : Bool)
    → (Before → before ≡ true)
    → (now ≡ true → After)
    → Leaves Before After long (
        if not before && (now && not long)
        then buy
        else if before && (not now && long)
        then sell
        else stay)
cross-Leaves true true long b a = λ e p. a refl
cross-Leaves true false true b a = tt
cross-Leaves true false false b a = λ e p. absurd (ground (arith, e))
cross-Leaves false true true b a = λ e p. a refl
cross-Leaves false true false b a = a refl
cross-Leaves false false long b a = λ e p. absurd (ground (arith, b p))

module _ {F : Type 0} ⦃fl : Float F⦄ (fast_ma slow_ma : List F) where
  -- The fast average is above the slow one at bar j.
  unfoldable pub Above : ℕ → Type 0
  Above j = (f : F) × (s : F) × (at fast_ma j ≡ some f) × (at slow_ma j ≡ some s) × (gt f s ≡ true)

  -- The position before bar j is long only if the fast average is above at the bar before.
  unfoldable pub Follows : ℕ → Book F → Type 0
  Follows j b = b.in_position ≡ true → Above (j - 1)

  Above-at :
      (j : ℕ) (f s : F) → at fast_ma j ≡ some f → at slow_ma j ≡ some s → Above j → gt f s ≡ true
  unfolding Above
  Above-at j f s e e' (f', s', d, d', above) = grind (arith, e, e', d, d', above)

  crossover_move-Leaves :
      (j : ℕ) (b : Book F)
      → IfReturns
          (Leaves (Above (j - 1)) (Above j) b.in_position)
          (crossover_move fast_ma slow_ma j b)
  unfolding crossover_move Above
  crossover_move-Leaves j b =
      bind-IfReturns _ L (at fast_ma (j - 1)) _ (IfReturns-self (at fast_ma (j - 1))) λ prev_fast e.
        bind-IfReturns _ L (at slow_ma (j - 1)) _ (IfReturns-self (at slow_ma (j - 1)))
          λ prev_slow e'.
            bind-IfReturns _ L (at fast_ma j) _ (IfReturns-self (at fast_ma j)) λ fast d.
              bind-IfReturns _ L (at slow_ma j) _ (IfReturns-self (at slow_ma j)) λ slow d'.
                cross-Leaves (gt prev_fast prev_slow) (gt fast slow) b.in_position
                  (Above-at (j - 1) prev_fast prev_slow e e') λ now. (fast, slow, d, d', now)
    where
      L : Move → Type 0
      L = Leaves (Above (j - 1)) (Above j) b.in_position

  module _ (format_date : Time → Str) (closes : List F) (dates : List Time) where
    apply_move-Follows :
        (j : ℕ) (move : Move) (b : Book F)
        → Follows j b
        → Leaves (Above (j - 1)) (Above j) b.in_position move
        → IfReturns
            (λ b'. b'.in_position ≡ true → Above j)
            (apply_move format_date closes dates j move b)
    unfolding apply_move Follows
    apply_move-Follows j stay b h leaves = λ long. leaves long (h long)
    apply_move-Follows j buy b h leaves =
        bind-IfReturns _ (λ b'. b'.in_position ≡ true → Above j)
          (event_at format_date closes dates j (bytes "buy")) _
          (IfReturns-self (event_at format_date closes dates j (bytes "buy"))) λ e q. λ long. leaves
    apply_move-Follows j sell b h leaves =
        bind-IfReturns _ (λ b'. b'.in_position ≡ true → Above j)
          (event_at format_date closes dates j (bytes "sell")) _
          (IfReturns-self (event_at format_date closes dates j (bytes "sell")))
          λ e q. λ long. absurd (ground (arith, long))

    pub bars_loop-Follows :
        (i count j : ℕ) (b : Book F)
        → i + count ≡ j
        → Follows i b
        → IfReturns
            (Follows j)
            (bars_loop format_date closes dates (crossover_move fast_ma slow_ma) i count b)
    unfolding bars_loop Follows
    bars_loop-Follows i zero j b end h = subst (λ k. Follows k b) (omega (arith, end)) h
    bars_loop-Follows i (suc count) j b end h =
        bind-IfReturns (Leaves (Above (i - 1)) (Above i) b.in_position) (Follows j)
          (crossover_move fast_ma slow_ma i b) _ (crossover_move-Leaves i b)
          λ move leaves.
            bind-IfReturns (λ b'. b'.in_position ≡ true → Above i) (Follows j)
              (apply_move format_date closes dates i move b) _
              (apply_move-Follows i move b h leaves)
              λ b' h'. bars_loop-Follows (i + 1) count j b' (omega (arith, end)) (next b' h')
      where
        next : (b' : Book F) → (b'.in_position ≡ true → Above i) → Follows (i + 1) b'
        next b' h' = λ long. subst Above (omega arith) (h' long)
