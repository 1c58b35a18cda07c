-- ===== src/Dashboard/Custom/Harness/Sound.antt =====
-- cmd/dashboard/backtest.go: what the script of pythonHarness writes, for an on_bar that leaves the variables
-- of the loop alone.
use crypto_divergence_engine.Prelude.{
  ℕ, ◌≡◌, Bool, false, some, List, if◌then◌else◌, length, map, get_elem?,
}
use crypto_divergence_engine.Prelude.Int.{ℤ, pos}
use crypto_divergence_engine.Go.Text.{Str}
use crypto_divergence_engine.Dashboard.Market.{OhlcvBar}
use crypto_divergence_engine.Dashboard.Backtest.{TradeEvent}
use crypto_divergence_engine.Dashboard.Backtest.Ledger.{IsLedger}
use crypto_divergence_engine.Dashboard.Custom.Harness.{
  Globals, Call, raised, exited, gave, HarnessOutput, error, crashed, silent, finished, bar_error,
}

abbrev pub position_of : Bool → ℤ
position_of long = if long then pos 1 else pos 0

module _ {F : Type 0} (bars : List (OhlcvBar F)) where
  -- The events are those of a ledger over the bars before `hi`, which leads to the position.
  abbrev pub IsHarnessLedger : ℕ → Bool → List (TradeEvent F) → Type 0
  IsHarnessLedger hi long events =
      IsLedger (λ date. date) (map OhlcvBar.close bars) (map OhlcvBar.date bars) false 0 hi long
        events

  -- An error is that of a bar, with its number and its date, and the events are a ledger of all
  -- bars that leads to the position; the script has no error of its own.
  abbrev pub IsHarnessOutput : HarnessOutput F → Type 0
  IsHarnessOutput (error text) =
      (k : ℕ) × (date : Str) × (e : Str) × (get_elem? (map OhlcvBar.date bars) k ≡ some date)
      × (text ≡ bar_error k date e)
  IsHarnessOutput crashed = ⊥
  IsHarnessOutput silent = Unit
  IsHarnessOutput (finished events position) =
      (long : Bool) × (position ≡ position_of long) × IsHarnessLedger (length bars) long events

module _ {F M : Type 0} where
  -- What a call leaves as it was: the bar's number and its dates, and if the loop goes on, the
  -- closes, the position and the events as well.
  abbrev pub Leaves : Globals F M → Call F M → Type 0
  Leaves g (raised e g') = (g'.i ≡ g.i) × (g'.dates ≡ g.dates)
  Leaves g exited = Unit
  Leaves g (gave signal g') =
      (g'.i ≡ g.i)
      × (g'.dates ≡ g.dates)
      × (g'.closes ≡ g.closes)
      × (g'.position ≡ g.position)
      × (g'.events ≡ g.events)

  module _ (bars : List (OhlcvBar F)) where
    -- The globals before bar k.
    abbrev Stands : ℕ → Globals F M → Type 0
    Stands k g =
        (g.dates ≡ map OhlcvBar.date bars)
        × (g.closes ≡ map OhlcvBar.close bars)
        × ((long : Bool) × (g.position ≡ position_of long) × IsHarnessLedger bars k long g.events)
