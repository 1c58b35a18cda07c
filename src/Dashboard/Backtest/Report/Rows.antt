-- ===== src/Dashboard/Backtest/Report/Rows.antt =====
-- cmd/dashboard/backtest.go: computeResult on events of its bars.
use crypto_divergence_engine.Prelude.{
  ℕ, zero, suc, ◌+◌, ◌-◌, ◌%◌, ◌^◌, ◌<◌, ◌≤◌, ◌≡◌, refl, ap, ◌∙◌, sym, ◌&&◌, List, [], ◌∷◌, ltb,
  ◌==◌, length, arith, Bool-cases, inl, inr,
}
use crypto_divergence_engine.Prelude.Int.{pos, ltb_ℤ}
use crypto_divergence_engine.Go.Float.{Float}
use crypto_divergence_engine.Go.Checked.{
  Returns, returns, bind-Returns, at-Returns, add_int, add_int-eq-pos,
}
use crypto_divergence_engine.Dashboard.Indicators.Bounds.{Any}
use crypto_divergence_engine.Dashboard.Backtest.{TradeEvent}
use crypto_divergence_engine.Dashboard.Backtest.Report.{
  SignalRow, is_buy, set_at, forward_change, signal_row, signal_rows, last_event, open_return,
  mark_buys, samples,
}

before_end :
    (i forward n : ℕ)
    → i + forward < 2 ^ 63
    → ltb_ℤ (add_int i forward) (pos n) ≡ ltb (i + forward) n
before_end i forward n fits = rw (add_int-eq-pos i forward fits) (ground arith)

module _ {F : Type 0} where
  -- The bars of the events lie before n.
  abbrev pub InBars : ℕ → List (TradeEvent F) → Type 0
  InBars n [] = Unit
  InBars n (e ∷ es) = (e.bar_idx < n) × InBars n es

  -- The row is the event's, with a forward return if the bar that many bars later exists.
  abbrev pub IsRow : ℕ → ℕ → TradeEvent F → SignalRow F → Type 0
  IsRow n forward e row =
      (row.date ≡ e.date)
      × (row.price ≡ e.price)
      × (row.kind ≡ e.kind)
      × (row.has_forward ≡ ltb (e.bar_idx + forward) n)

  abbrev pub AreRows : ℕ → ℕ → List (TradeEvent F) → List (SignalRow F) → Type 0
  AreRows n forward [] [] = Unit
  AreRows n forward [] (row ∷ rows) = ⊥
  AreRows n forward (e ∷ es) [] = ⊥
  AreRows n forward (e ∷ es) (row ∷ rows) = IsRow n forward e row × AreRows n forward es rows

  pub length-AreRows :
      (n forward : ℕ) (es : List (TradeEvent F)) (rows : List (SignalRow F))
      → AreRows n forward es rows
      → length rows ≡ length es
  length-AreRows n forward [] [] h = refl
  length-AreRows n forward [] (row ∷ rows) h = absurd h
  length-AreRows n forward (e ∷ es) [] h = absurd h
  length-AreRows n forward (e ∷ es) (row ∷ rows) (h, t) =
      ap suc (length-AreRows n forward es rows t)

  set_at-Returns :
      (xs : List F) (i : ℕ) (x : F)
      → i < length xs
      → Returns (λ ys. length ys ≡ length xs) (set_at xs i x)
  unfolding set_at
  set_at-Returns [] i x lt = absurd (omega arith)
  set_at-Returns (y ∷ ys) zero x lt = returns refl
  set_at-Returns (y ∷ ys) (suc i) x lt =
      bind-Returns (set_at-Returns ys i x (omega arith)) λ rest e. returns (ap suc e)

module _ {F : Type 0} ⦃fl : Float F⦄ where
  forward_change-Returns :
      (closes : List F) (forward i : ℕ)
      → i + forward < length closes
      → length closes < 2 ^ 63
      → Returns Any (forward_change closes forward i)
  unfolding forward_change
  forward_change-Returns closes forward i lt small =
      rw (add_int-eq-pos i forward (omega (arith, lt, small))) (
        bind-Returns (at-Returns closes (i + forward) lt)
          λ later e. bind-Returns (at-Returns closes i (omega arith)) λ now e'. returns tt)

  module _ (closes : List F) (n forward : ℕ) (all : n ≡ length closes)
      (fits : n + forward < 2 ^ 63) where
    signal_row-Returns :
        (e : TradeEvent F)
        → e.bar_idx < n
        → Returns (IsRow n forward e) (signal_row closes n forward e)
    unfolding signal_row
    signal_row-Returns e lt =
        let same = before_end e.bar_idx forward n (omega (arith, lt, fits)) in
        elim (Bool-cases (ltb_ℤ (add_int e.bar_idx forward) (pos n))) [
          | inl hit ↦ rw hit (
              bind-Returns
                (forward_change-Returns closes forward e.bar_idx (ground (arith, same, hit, all))
                  (omega (arith, fits, all)))
                λ change p. returns (refl, refl, refl, sym hit ∙ same))
          | inr miss ↦ rw miss (returns (refl, refl, refl, sym miss ∙ same))
        ]

    pub signal_rows-Returns :
        (es : List (TradeEvent F))
        → InBars n es
        → Returns (AreRows n forward es) (signal_rows closes n forward es)
    unfolding signal_rows
    signal_rows-Returns [] h = returns tt
    signal_rows-Returns (e ∷ es) (h, t) =
        bind-Returns (signal_row-Returns e h)
          λ row r. bind-Returns (signal_rows-Returns es t) λ rows rs. returns (r, rs)

    pub samples-Returns :
        (indicator : List F) (fuel i : ℕ)
        → length indicator ≡ n
        → i ≤ n
        → n < fuel + i
        → Returns Any (samples closes indicator n forward fuel i)
    unfolding samples
    samples-Returns indicator zero i size le enough = absurd (omega arith)
    samples-Returns indicator (suc fuel) i size le enough =
        let same = before_end i forward n (omega (arith, le, fits)) in
        elim (Bool-cases (ltb_ℤ (add_int i forward) (pos n))) [
          | inl hit ↦
              let below : i + forward < n = ground (arith, same, hit) in
              rw hit (
                bind-Returns
                  (forward_change-Returns closes forward i (omega (arith, below, all))
                    (omega (arith, fits, all)))
                  λ change p.
                    bind-Returns (at-Returns indicator i (omega (arith, below, size))) λ x q.
                      bind-Returns
                        (samples-Returns indicator fuel (i + 1) size (omega (arith, below))
                          (omega (arith, enough)))
                        λ rest r. returns tt)
          | inr miss ↦ rw miss (returns tt)
        ]

  pub open_return-Returns :
      (closes : List F) (n : ℕ) (es : List (TradeEvent F)) (r : F)
      → n ≡ length closes
      → InBars n es
      → Returns Any (open_return closes n es r)
  unfolding open_return
  open_return-Returns closes n [] r all h = returns tt
  open_return-Returns closes n (e ∷ es) r all (h, t) =
      elim (Bool-cases ((length (e ∷ es) % 2 == 1) && is_buy (last_event e es))) [
        | inl hit ↦
            rw hit (
              bind-Returns (at-Returns closes (n - 1) (omega (arith, h, all)))
                λ price p. returns tt)
        | inr miss ↦ rw miss (returns tt)
      ]

  pub mark_buys-Returns :
      (n : ℕ) (es : List (TradeEvent F)) (indicator : List F)
      → length indicator ≡ n
      → InBars n es
      → Returns (λ xs. length xs ≡ n) (mark_buys es indicator)
  unfolding mark_buys
  mark_buys-Returns n [] indicator size h = returns size
  mark_buys-Returns n (e ∷ es) indicator size (h, t) = elim (Bool-cases (is_buy e)) [
    | inl hit ↦ rw hit (
        bind-Returns (set_at-Returns indicator e.bar_idx (fl.of_nat 1) (omega (arith, h, size)))
          λ xs q. mark_buys-Returns n es xs (q ∙ size) t)
    | inr miss ↦ rw miss (mark_buys-Returns n es indicator size t)
  ]
