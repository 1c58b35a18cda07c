-- ===== src/Dashboard/Backtest/Causal.antt =====
-- cmd/dashboard/backtest.go: the loop of a strategy, cut at a bar.
use crypto_divergence_engine.Prelude.{
  ℕ, zero, suc, ◌+◌, ◌<◌, ◌≤◌, ◌≡◌, refl, sym, ap, ap₂, ◌∙◌, Option, List, [], ◌∷◌, ◌++◌,
  append_assoc, append-nil, arith,
}
use crypto_divergence_engine.Go.Text.{Str, bytes}
use crypto_divergence_engine.Go.Time.{Time}
use crypto_divergence_engine.Go.Checked.{
  ◌>>=◌, IfReturns, bind-IfReturns, IfReturns-self, IfReturns-weaken, bind-same, bind_assoc, at,
}
use crypto_divergence_engine.Dashboard.Indicators.Causal.{Agrees}
use crypto_divergence_engine.Dashboard.Backtest.{
  TradeEvent, Book, Move, stay, buy, sell, event_at, apply_move, bars_loop,
}

module _ {F : Type 0} where
  -- Later events at bars from `lo` on.
  abbrev pub AreLater : ℕ → List (TradeEvent F) → Type 0
  AreLater lo [] = Unit
  AreLater lo (e ∷ es) = (lo ≤ e.bar_idx) × AreLater lo es

  -- The book has more events, at bars from `lo` on.
  abbrev pub Extends : ℕ → Book F → Book F → Type 0
  Extends lo b b' = (es : List (TradeEvent F)) × (b'.events ≡ b.events ++ es) × AreLater lo es

  AreLater-earlier :
      (lo hi : ℕ) (es : List (TradeEvent F)) → lo ≤ hi → AreLater hi es → AreLater lo es
  AreLater-earlier lo hi [] le h = tt
  AreLater-earlier lo hi (e ∷ es) le (from, rest) =
      (omega (arith, from, le), AreLater-earlier lo hi es le rest)

  AreLater-append :
      (lo : ℕ) (es fs : List (TradeEvent F))
      → AreLater lo es
      → AreLater lo fs
      → AreLater lo (es ++ fs)
  AreLater-append lo [] fs h t = t
  AreLater-append lo (e ∷ es) fs (from, rest) t = (from, AreLater-append lo es fs rest t)

  Extends-trans :
      (i : ℕ) (b b' b'' : Book F) → Extends i b b' → Extends (i + 1) b' b'' → Extends i b b''
  Extends-trans i b b' b'' (es, e, h) (fs, f, t) = (
    es ++ fs,
    f ∙ ap (λ l. l ++ fs) e ∙ append_assoc b.events es fs,
    AreLater-append i es fs h (AreLater-earlier i (i + 1) fs (omega arith) t),
  )

module _ {F : Type 0} (format_date : Time → Str) where
  module _ (closes closes' : List F) (dates dates' : List Time) (n : ℕ)
      (same_closes : Agrees n closes closes') (same_dates : Agrees n dates dates') where
    event_at-same :
        (i : ℕ) (kind : Str)
        → i < n
        → event_at format_date closes' dates' i kind ≡ event_at format_date closes dates i kind
    unfolding event_at
    event_at-same i kind lt =
        bind-same (at dates' i) (at dates i) _ _ (same_dates i lt)
          λ date. bind-same (at closes' i) (at closes i) _ _ (same_closes i lt) λ close. refl

    apply_move-same :
        (i : ℕ) (move : Move) (b : Book F)
        → i < n
        → apply_move format_date closes' dates' i move b
          ≡ apply_move format_date closes dates i move b
    unfolding apply_move
    apply_move-same i stay b lt = refl
    apply_move-same i buy b lt =
        bind-same (event_at format_date closes' dates' i (bytes "buy"))
          (event_at format_date closes dates i (bytes "buy")) _ _ (event_at-same i (bytes "buy") lt)
          λ e. refl
    apply_move-same i sell b lt =
        bind-same (event_at format_date closes' dates' i (bytes "sell"))
          (event_at format_date closes dates i (bytes "sell")) _ _
          (event_at-same i (bytes "sell") lt) λ e. refl

    pub bars_loop-same :
        (decide decide' : ℕ → Book F → Option Move) (i count : ℕ) (b : Book F)
        → ((j : ℕ) (b' : Book F) → i ≤ j → j < n → decide' j b' ≡ decide j b')
        → i + count ≤ n
        → bars_loop format_date closes' dates' decide' i count b
          ≡ bars_loop format_date closes dates decide i count b
    unfolding bars_loop
    bars_loop-same decide decide' i zero b same le = refl
    bars_loop-same decide decide' i (suc count) b same le =
        bind-same (decide' i b) (decide i b) _ _ (same i b (omega arith) (omega arith)) λ move.
          bind-same (apply_move format_date closes' dates' i move b)
            (apply_move format_date closes dates i move b) _ _
            (apply_move-same i move b (omega arith))
            λ b'.
              bars_loop-same decide decide' (i + 1) count b'
                (λ j c from upto. same j c (omega arith) upto) (omega arith)

  module _ (closes : List F) (dates : List Time) where
    -- The loop over some bars, then the loop over those after them.
    pub bars_loop-split :
        (decide : ℕ → Book F → Option Move) (i a c m total : ℕ) (b : Book F)
        → i + a ≡ m
        → a + c ≡ total
        → bars_loop format_date closes dates decide i total b ≡ (
            bars_loop format_date closes dates decide i a b >>= λ b'.
            bars_loop format_date closes dates decide m c b')
    unfolding bars_loop
    bars_loop-split decide i zero c m total b end all =
        ap₂ (λ j k. bars_loop format_date closes dates decide j k b) (omega (arith, end))
          (omega (arith, all))
    bars_loop-split decide i (suc a) c m zero b end all = absurd (omega (arith, all))
    bars_loop-split decide i (suc a) c m (suc total) b end all =
        bind-same (decide i b) (decide i b) _ _ refl (λ move.
          bind-same (apply_move format_date closes dates i move b) _ _ _ refl (λ b'.
            bars_loop-split decide (i + 1) a c m total b' (omega (arith, end)) (omega (arith, all)))
          ∙ sym (bind_assoc (apply_move format_date closes dates i move b) _ _))
        ∙ sym (bind_assoc (decide i b) _ _)

    event_at-bar :
        (i : ℕ) (kind : Str)
        → IfReturns (λ e. e.bar_idx ≡ i) (event_at format_date closes dates i kind)
    unfolding event_at
    event_at-bar i kind =
        bind-IfReturns _ (λ e. e.bar_idx ≡ i) (at dates i) _ (IfReturns-self (at dates i))
          λ date p.
            bind-IfReturns _ (λ e. e.bar_idx ≡ i) (at closes i) _ (IfReturns-self (at closes i))
              λ close q. refl

    apply_move-Extends :
        (i : ℕ) (move : Move) (b : Book F)
        → IfReturns (Extends i b) (apply_move format_date closes dates i move b)
    unfolding apply_move
    apply_move-Extends i stay b = ([], sym (append-nil b.events), tt)
    apply_move-Extends i buy b =
        bind-IfReturns _ (Extends i b) (event_at format_date closes dates i (bytes "buy")) _
          (event_at-bar i (bytes "buy")) λ e bar. (e ∷ [], refl, (omega (arith, bar), tt))
    apply_move-Extends i sell b =
        bind-IfReturns _ (Extends i b) (event_at format_date closes dates i (bytes "sell")) _
          (event_at-bar i (bytes "sell")) λ e bar. (e ∷ [], refl, (omega (arith, bar), tt))

    pub bars_loop-Extends :
        (decide : ℕ → Book F → Option Move) (i count : ℕ) (b : Book F)
        → IfReturns (Extends i b) (bars_loop format_date closes dates decide i count b)
    unfolding bars_loop
    bars_loop-Extends decide i zero b = ([], sym (append-nil b.events), tt)
    bars_loop-Extends decide i (suc count) b =
        bind-IfReturns _ (Extends i b) (decide i b) _ (IfReturns-self (decide i b)) λ move p.
          bind-IfReturns (Extends i b) (Extends i b) (apply_move format_date closes dates i move b)
            _ (apply_move-Extends i move b)
            λ b' h.
              IfReturns-weaken (Extends (i + 1) b') (Extends i b)
                (bars_loop format_date closes dates decide (i + 1) count b')
                (bars_loop-Extends decide (i + 1) count b') λ b'' t. Extends-trans i b b' b'' h t
