-- ===== src/Dashboard/Indicators/Causal.antt =====
-- cmd/dashboard/backtest.go: barSMA and computeBollinger on prices with more prices after them.
use crypto_divergence_engine.Prelude.{
  ℕ, zero, suc, ◌+◌, ◌-◌, ◌<◌, ◌≤◌, ◌≡◌, refl, sym, ap, ◌∙◌, false, Option, some, List, [], ◌∷◌,
  ◌++◌, arith, length, length-append, length-replicate, get_elem?, replicate, take, ltb, ◌==◌,
  Bool-cases, inl, inr,
}
use mathlib.Core.Path.{subst}
use crypto_divergence_engine.Go.Float.{Float}
use crypto_divergence_engine.Go.Checked.{
  ◌>>=◌, IfReturns, bind-IfReturns, bind-same, at-append, at-append_right, at-fill, fill, at,
}
use crypto_divergence_engine.Dashboard.Indicators.{
  Band, sum_range, bar_sma, variance_loop, bollinger_cell, compute_bollinger,
}

-- The first n cells of ys are those of xs.
abbrev pub Agrees : {A : Type 0} → ℕ → List A → List A → Type 0
Agrees n xs ys = (i : ℕ) → i < n → get_elem? ys i ≡ get_elem? xs i

pub take-append :
    {A : Type 0} (n : ℕ) (xs ys : List A) → n ≤ length xs → take n (xs ++ ys) ≡ take n xs
take-append zero xs ys h = refl
take-append (suc n) [] ys h = absurd (omega arith)
take-append (suc n) (x ∷ xs) ys h = ap (λ l. x ∷ l) (take-append n xs ys (omega arith))

pub at-replicate :
    {A : Type 0} (n : ℕ) (a : A) (i : ℕ) → i < n → get_elem? (replicate n a) i ≡ some a
at-replicate zero a i h = absurd (omega arith)
at-replicate (suc n) a zero h = refl
at-replicate (suc n) a (suc i) h = at-replicate n a i (omega arith)

abbrev no_band : {F : Type 0} → ⦃fl : Float F⦄ → Band F
no_band ⦃fl⦄ = record { upper = fl.of_nat 0; middle = fl.of_nat 0; lower = fl.of_nat 0 }

-- Cells that are computed from their index after some equal ones.
module _ {A : Type 0} (z : A) (k count count' : ℕ) (f f' : ℕ → Option A)
    (cells cells' : List A) where
  pub filled-Agrees :
      count ≤ count'
      → ((j : ℕ) → j < count → get_elem? cells j ≡ f (k + j))
      → ((j : ℕ) → j < count' → get_elem? cells' j ≡ f' (k + j))
      → ((j : ℕ) → k ≤ j → j < k + count → f' j ≡ f j)
      → Agrees (k + count) (replicate k z ++ cells) (replicate k z ++ cells')
  filled-Agrees more h h' same i lt = elim (Bool-cases (ltb i k)) [
    | inl below ↦
        let b : i < length (replicate k z) = ground (arith, below, length-replicate k z) in
        at-append (replicate k z) cells' i b ∙ sym (at-append (replicate k z) cells i b)
    | inr above ↦
        let a : length (replicate k z) + (i - k) ≡ i =
          ground (arith, above, length-replicate k z) in
        let in_count : i - k < count = ground (arith, above, lt) in
        let back : k + (i - k) ≡ i = ground (arith, above) in
        at-append_right (replicate k z) cells' (i - k) i a
        ∙ h' (i - k) (omega (arith, in_count, more))
        ∙ same (k + (i - k)) (omega arith) (omega (arith, in_count))
        ∙ sym (h (i - k) in_count)
        ∙ sym (at-append_right (replicate k z) cells (i - k) i a)
  ]

module _ {F : Type 0} ⦃fl : Float F⦄ (xs ys : List F) where
  sum_range-same :
      (i count : ℕ) (sum : F)
      → i + count ≤ length xs
      → sum_range (xs ++ ys) i count sum ≡ sum_range xs i count sum
  unfolding sum_range
  sum_range-same i zero sum h = refl
  sum_range-same i (suc count) sum h =
      bind-same (at (xs ++ ys) i) (at xs i) _ _ (at-append xs ys i (omega arith))
        λ p. sum_range-same (i + 1) count (fl.add sum p) (omega arith)

  pub bar_sma-same :
      (end period : ℕ) → end ≤ length xs → bar_sma (xs ++ ys) end period ≡ bar_sma xs end period
  unfolding bar_sma
  bar_sma-same end period h = elim (Bool-cases (ltb end period)) [
    | inl e ↦ rw e refl
    | inr e ↦ rw e (
        ap (λ m. m >>= λ sum. some (fl.div sum (fl.of_nat period)))
          (sum_range-same (end - period) period (fl.of_nat 0) (ground (arith, e))))
  ]

  variance_loop-same :
      (sma : F) (j count : ℕ) (variance : F)
      → j + count ≤ length xs
      → variance_loop (xs ++ ys) sma j count variance ≡ variance_loop xs sma j count variance
  unfolding variance_loop
  variance_loop-same sma j zero variance h = refl
  variance_loop-same sma j (suc count) variance h =
      bind-same (at (xs ++ ys) j) (at xs j) _ _ (at-append xs ys j (omega arith))
        λ p. variance_loop-same sma (j + 1) count _ (omega arith)

  bollinger_cell-same :
      (period : ℕ) (std_devs : F) (i : ℕ)
      → period ≤ i + 1
      → i < length xs
      → bollinger_cell (xs ++ ys) period std_devs i ≡ bollinger_cell xs period std_devs i
  unfolding bollinger_cell
  bollinger_cell-same period std_devs i h lt =
      bind-same (bar_sma (xs ++ ys) (i + 1) period) (bar_sma xs (i + 1) period) _ _
        (bar_sma-same (i + 1) period (omega arith))
        λ sma.
          bind-same (variance_loop (xs ++ ys) sma (i + 1 - period) period (fl.of_nat 0))
            (variance_loop xs sma (i + 1 - period) period (fl.of_nat 0)) _ _
            (variance_loop-same sma (i + 1 - period) period (fl.of_nat 0) (omega arith))
            λ variance. refl

  -- An indicator on the longer prices, if it returns, agrees with it on the shorter.
  abbrev pub Keeps : {A : Type 0} → Option (List A) → Option (List A) → Type 0
  Keeps m m' = IfReturns (λ e. IfReturns (λ e'. Agrees (length xs) e e') m') m

  pub Keeps-by :
      {A : Type 0} (m m' n n' : Option (List A)) → m ≡ n → m' ≡ n' → Keeps n n' → Keeps m m'
  Keeps-by m m' n n' e e' h = subst (λ o. Keeps o m') (sym e) (subst (λ o. Keeps n o) (sym e') h)

  -- some cells that are equal, then those that a loop fills
  fill-Keeps :
      {A : Type 0} (z : A) (k count count' : ℕ) (f f' : ℕ → Option A)
      → k + count ≡ length xs
      → count ≤ count'
      → ((j : ℕ) → k ≤ j → j < length xs → f' j ≡ f j)
      → Keeps
          (fill f k count >>= λ cells. some (replicate k z ++ cells))
          (fill f' k count' >>= λ cells. some (replicate k z ++ cells))
  fill-Keeps z k count count' f f' all more same =
      bind-IfReturns _ _ (fill f k count) _ (at-fill f k count) λ cells h.
        bind-IfReturns _ _ (fill f' k count') _ (at-fill f' k count') λ cells' h' i lt.
          filled-Agrees z k count count' f f' cells cells' more h h'
            (λ j from upto. same j from (omega (arith, upto, all))) i (omega (arith, lt, all))

  -- a list and a longer one
  pub append-Agrees :
      {A : Type 0} (us vs : List A) → length us ≡ length xs → Agrees (length xs) us (us ++ vs)
  append-Agrees us vs e i lt = at-append us vs i (omega (arith, e, lt))

compute_bollinger-eq :
    {F : Type 0} ⦃fl : Float F⦄ (xs : List F) (period : ℕ) (std_devs : F)
    → 0 < period
    → period ≤ length xs
    → compute_bollinger xs period std_devs ≡ (
        fill (bollinger_cell xs period std_devs) (period - 1) (length xs - (period - 1))
        >>= λ cells. some (replicate (period - 1) no_band ++ cells))
unfolding compute_bollinger
compute_bollinger-eq xs period std_devs some_bars enough = rw (not_zero, fits) refl
  where
    not_zero : (period == 0) ≡ false
    not_zero = ground (arith, some_bars)

    fits : ltb (length xs) period ≡ false
    fits = ground (arith, enough)

module _ {F : Type 0} ⦃fl : Float F⦄ (xs ys : List F) where
  pub compute_bollinger-Keeps :
      (period : ℕ) (std_devs : F)
      → 0 < period
      → period ≤ length xs
      → Keeps xs ys
          (compute_bollinger xs period std_devs)
          (compute_bollinger (xs ++ ys) period std_devs)
  compute_bollinger-Keeps period std_devs some_bars enough =
      Keeps-by xs ys _ _ _ _ (compute_bollinger-eq xs period std_devs some_bars enough)
        (compute_bollinger-eq (xs ++ ys) period std_devs some_bars
          (omega (arith, enough, length-append {0} xs ys)))
        (fill-Keeps xs ys no_band (period - 1) (length xs - (period - 1))
          (length (xs ++ ys) - (period - 1)) (bollinger_cell xs period std_devs)
          (bollinger_cell (xs ++ ys) period std_devs) (omega (arith, enough, some_bars))
          (omega (arith, length-append {0} xs ys))
          λ j from upto. bollinger_cell-same xs ys period std_devs j (omega (arith, from)) upto)
