-- ===== src/Dashboard/Market/Klines.antt =====
-- cmd/dashboard/backtest.go: the slices that fetchKlines returns.
use crypto_divergence_engine.Prelude.{
  ℕ, suc, ◌≤◌, ◌≡◌, refl, ap, Option, none, some, List, [], ◌∷◌, length, arith, ◌==◌, if◌then◌else◌,
  Bool-cases, inl, inr,
}
use crypto_divergence_engine.Go.Text.{Str, bytes}
use crypto_divergence_engine.Go.Time.{Time}
use crypto_divergence_engine.Dashboard.Market.{
  Market, Outcome, ◌>>=◌, wrap_error, add_kline, failed, done, fetch_raw, parse_bars, read_all,
  api_error, kline_of, klines_of, fetch_klines, klines_url,
}

-- What holds of the value, if there is one.
abbrev pub IfDone : {A : Type 0} → (A → Type 0) → Outcome A → Type 0
IfDone P (failed e) = Unit
IfDone P (done a) = P a

pub bind-IfDone :
    {A B : Type 0} (P : A → Type 0) (Q : B → Type 0) (m : Outcome A) (f : A → Outcome B)
    → IfDone P m
    → ((a : A) → P a → IfDone Q (f a))
    → IfDone Q (m >>= f)
bind-IfDone P Q (failed e) f p k = tt
bind-IfDone P Q (done a) f p k = k a p

IfDone-any : {A : Type 0} → (m : Outcome A) → IfDone (λ a. Unit) m
IfDone-any (failed e) = tt
IfDone-any (done a) = tt

wrap_error-IfDone :
    {A : Type 0} (P : A → Type 0) (prefix : Str) (m : Outcome A)
    → ((a : A) → m ≡ done a → P a)
    → IfDone P (wrap_error prefix m)
wrap_error-IfDone P prefix (failed e) h = tt
wrap_error-IfDone P prefix (done a) h = h a refl

-- The slices have one length, which is at most n.
abbrev pub AreKlines : {F : Type 0} → ℕ → List F × List Time → Type 0
AreKlines n fetched = (length fetched.1 ≡ length fetched.0) × (length fetched.0 ≤ n)

add_kline-AreKlines :
    {F : Type 0} (n : ℕ) (o : Option (F × Time)) (fetched : List F × List Time)
    → AreKlines n fetched
    → AreKlines (suc n) (add_kline o fetched)
add_kline-AreKlines n none fetched (same, le) = (same, omega arith)
add_kline-AreKlines n (some (c, t)) fetched (same, le) = (ap suc same, omega arith)

module _ {F : Type 0} (mk : Market F) where
  klines_of-AreKlines : (raw : List (List mk.Raw)) → AreKlines (length raw) (klines_of mk raw)
  unfolding klines_of
  klines_of-AreKlines [] = (refl, omega arith)
  klines_of-AreKlines (bar ∷ raw) =
      add_kline-AreKlines (length raw) (kline_of mk bar) (klines_of mk raw)
        (klines_of-AreKlines raw)

  module _ (limit : ℕ)
      (short : (body : Str) (raw : List (List mk.Raw))
        → mk.bars_of body ≡ done raw
        → length raw ≤ limit) where
    pub fetch_raw-IfDone : (url : Str) → IfDone (λ raw. length raw ≤ limit) (fetch_raw mk url)
    unfolding fetch_raw
    fetch_raw-IfDone url =
        bind-IfDone (λ a. Unit) (λ raw. length raw ≤ limit) (read_all mk url)
          (λ a.
            if a.status == 200
            then parse_bars mk (bytes "parse response: ") a.body
            else failed (api_error mk a))
          (IfDone-any (read_all mk url))
          λ a p. elim (Bool-cases (a.status == 200)) [
            | inl hit ↦ rw hit (
                wrap_error-IfDone (λ raw. length raw ≤ limit) (bytes "parse response: ")
                  (mk.bars_of a.body) (short a.body))
            | inr miss ↦ rw miss tt
          ]

    pub fetch_klines-IfDone :
        (symbol interval : Str) (from upto : Time)
        → IfDone (AreKlines limit) (fetch_klines mk symbol interval from upto)
    unfolding fetch_klines
    fetch_klines-IfDone symbol interval from upto =
        bind-IfDone (λ raw. length raw ≤ limit) (AreKlines limit)
          (fetch_raw mk (klines_url symbol interval from upto)) (λ raw. done (klines_of mk raw))
          (fetch_raw-IfDone (klines_url symbol interval from upto))
          λ raw le. let (same, below) = klines_of-AreKlines raw in (same, omega (arith, below, le))
