-- ===== src/Dashboard/Backtest/Report/Equity.antt =====
-- cmd/dashboard/backtest.go: the return of computeResult against an account that follows the events
-- one by one.
use crypto_divergence_engine.Prelude.{
  ℕ, suc, ◌-◌, ◌≡◌, refl, ap, ◌∙◌, Bool, true, false, ◌&&◌, Option, none, some, List, [], ◌∷◌,
  if◌then◌else◌, arith,
}
use crypto_divergence_engine.Go.Text.{Str, bytes, str_eq, str_eq_refl}
use crypto_divergence_engine.Go.Float.{Float}
use crypto_divergence_engine.Go.Checked.{◌>>=◌, at}
use crypto_divergence_engine.Dashboard.Backtest.{TradeEvent}
use crypto_divergence_engine.Dashboard.Backtest.Ledger.{IsLedger}
use crypto_divergence_engine.Dashboard.Backtest.Report.{
  is_buy, is_sell, grown, pairs_return, last_event, open_return,
}

-- the account: its value when it last held money, and the price it paid if it holds the asset
pub record Account (F : Type 0) : Type 0 where
  pub value : F
  pub paid : Option F

module _ {F : Type 0} ⦃fl : Float F⦄ where
  unfoldable pub follow : Account F → TradeEvent F → Account F
  follow a e = elim a.paid [
    | none ↦ if is_buy e then record a { paid = some e.price } else a
    | some paid ↦
        if is_sell e then record { value = grown a.value paid e.price; paid = none } else a
  ]

  unfoldable pub follow_all : Account F → List (TradeEvent F) → Account F
  follow_all a [] = a
  follow_all a (e ∷ es) = follow_all (follow a e) es

  -- what the account is worth at a price
  unfoldable pub worth : F → Account F → F
  worth price a = elim a.paid [ none ↦ a.value | some paid ↦ grown a.value paid price ]

  -- what one unit of money grows to
  abbrev pub equity : List (TradeEvent F) → F → F
  equity events last = worth last (follow_all (record { value = fl.of_nat 1; paid = none }) events)

  kind-is_buy : (e : TradeEvent F) → e.kind ≡ bytes "buy" → is_buy e ≡ true
  kind-is_buy e h = ap (λ k. str_eq k (bytes "buy")) h ∙ str_eq_refl (bytes "buy")

  kind-is_sell : (e : TradeEvent F) → e.kind ≡ bytes "sell" → is_sell e ≡ true
  kind-is_sell e h = ap (λ k. str_eq k (bytes "sell")) h ∙ str_eq_refl (bytes "sell")

  -- A round trip in front does not change the open position.
  open_return-round :
      (closes : List F) (n : ℕ) (a b : TradeEvent F) (es : List (TradeEvent F)) (r : F)
      → open_return closes n (a ∷ b ∷ es) r ≡ open_return closes n es r
  unfolding open_return last_event
  open_return-round closes n a b [] r = refl
  open_return-round closes n a b (e ∷ es) r =
      ap
        (λ odd.
          if odd && is_buy (last_event e es)
          then (at closes (n - 1) >>= λ price. some (grown r (last_event e es).price price))
          else some r)
        (ground arith)

  module _ {D : Type 0} (format_date : D → Str) (closes : List F) (dates : List D) where
    -- On a ledger that starts without a position, the return of computeResult, which goes over
    -- the events in pairs and then adds an open position at the last close, is the worth at the
    -- last close of an account that follows the events one by one: it holds the asset from each
    -- buy to the next sell.
    pub open_return-eq-worth :
        (n lo hi : ℕ) (end : Bool) (last : F) (es : List (TradeEvent F)) (r : F)
        → at closes (n - 1) ≡ some last
        → IsLedger format_date closes dates false lo hi end es
        → open_return closes n es (pairs_return es r)
          ≡ some (worth last (follow_all (record { value = r; paid = none }) es))
    unfolding open_return pairs_return follow_all follow worth last_event
    open_return-eq-worth n lo hi end last [] r at_last h = refl
    open_return-eq-worth n lo hi end last (a ∷ []) r at_last (from, upto, kind, own, rest) =
        rw (kind-is_buy a kind, at_last) refl
    open_return-eq-worth n lo hi end last (a ∷ b ∷ es) r at_last
          (from, upto, kind, own, (from', upto', kind', own', rest)) =
        open_return-round closes n a b es _
        ∙ rw (kind-is_buy a kind, kind-is_sell b kind')
            (open_return-eq-worth n (suc b.bar_idx) hi end last es _ at_last rest)
