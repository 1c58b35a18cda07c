-- ===== src/Dashboard/Backtest/Ledger.antt =====
-- cmd/dashboard/backtest.go: the events of a strategy's loop, as a ledger of buys and sells.
use crypto_divergence_engine.Prelude.{
  ℕ, zero, suc, ◌+◌, ◌<◌, ◌≤◌, ◌≡◌, refl, sym, ap, ◌∙◌, Bool, true, false, not, Option, some, List,
  [], ◌∷◌, ◌++◌, arith, length, get_elem?,
}
use mathlib.Core.Path.{subst}
use crypto_divergence_engine.Go.Text.{Str, bytes}
use crypto_divergence_engine.Go.Time.{Time}
use crypto_divergence_engine.Go.Checked.{Returns, returns, bind-Returns, at-Returns}
use crypto_divergence_engine.Dashboard.Backtest.{
  TradeEvent, Book, Move, stay, buy, sell, event_at, apply_move, bars_loop,
}

-- the side of a trade in a position
abbrev pub side : Bool → Str
side true = bytes "sell"
side false = bytes "buy"

-- A move that the position allows.
abbrev pub Fits : Bool → Move → Type 0
Fits long stay = Unit
Fits long buy = long ≡ false
Fits long sell = long ≡ true

module _ {F D : Type 0} (format_date : D → Str) (closes : List F) (dates : List D) where
  -- The event carries the price and the date of its bar.
  abbrev pub Quotes : TradeEvent F → Type 0
  Quotes e =
      (get_elem? closes e.bar_idx ≡ some e.price)
      × ((date : D) × (get_elem? dates e.bar_idx ≡ some date) × (e.date ≡ format_date date))

  -- From the position `long` before bar `lo`, the events lead to the position `end` before bar `hi`.
  abbrev pub IsLedger : Bool → ℕ → ℕ → Bool → List (TradeEvent F) → Type 0
  IsLedger long lo hi end [] = (lo ≤ hi) × (long ≡ end)
  IsLedger long lo hi end (e ∷ es) =
      (lo ≤ e.bar_idx)
      × (e.bar_idx < hi)
      × (e.kind ≡ side long)
      × Quotes e
      × IsLedger (not long) (suc e.bar_idx) hi end es

  pub IsLedger-later :
      (long : Bool) (lo hi : ℕ) (end : Bool) (es : List (TradeEvent F))
      → IsLedger long lo hi end es
      → IsLedger long lo (hi + 1) end es
  IsLedger-later long lo hi end [] (le, same) = (omega arith, same)
  IsLedger-later long lo hi end (e ∷ es) (above, below, kind, own, rest) =
      (above, omega arith, kind, own, IsLedger-later (not long) (suc e.bar_idx) hi end es rest)

  pub IsLedger-snoc :
      (long : Bool) (lo hi : ℕ) (end : Bool) (es : List (TradeEvent F)) (e : TradeEvent F)
      → IsLedger long lo hi end es
      → e.bar_idx ≡ hi
      → e.kind ≡ side end
      → Quotes e
      → IsLedger long lo (hi + 1) (not end) (es ++ e ∷ [])
  IsLedger-snoc long lo hi end [] e (le, same) bar kind own = (
    omega (arith, bar),
    omega (arith, bar),
    kind ∙ ap side (sym same),
    own,
    (omega (arith, bar), ap not same),
  )
  IsLedger-snoc long lo hi end (d ∷ es) e (above, below, k, at_d, rest) bar kind own = (
    above,
    omega arith,
    k,
    at_d,
    IsLedger-snoc (not long) (suc d.bar_idx) hi end es e rest bar kind own,
  )

module _ {F : Type 0} (format_date : Time → Str) (closes : List F) (dates : List Time) where
  event_at-Returns :
      (i : ℕ) (kind : Str)
      → i < length closes
      → i < length dates
      → Returns
          (λ e. (e.bar_idx ≡ i) × (e.kind ≡ kind) × Quotes format_date closes dates e)
          (event_at format_date closes dates i kind)
  unfolding event_at
  event_at-Returns i kind in_closes in_dates = bind-Returns (at-Returns dates i in_dates) λ date d.
      bind-Returns (at-Returns closes i in_closes)
        λ close c. returns (refl, refl, (c, (date, d, refl)))

  -- The book after the bars before `hi`, from bar `lo` on.
  abbrev pub Keeps : ℕ → ℕ → Book F → Type 0
  Keeps lo hi b = IsLedger format_date closes dates false lo hi b.in_position b.events

  apply_move-Keeps :
      (lo i : ℕ) (move : Move) (b : Book F)
      → i < length closes
      → i < length dates
      → Fits b.in_position move
      → Keeps lo i b
      → Returns (Keeps lo (i + 1)) (apply_move format_date closes dates i move b)
  unfolding apply_move
  apply_move-Keeps lo i stay b c d fits h =
      returns (IsLedger-later format_date closes dates false lo i b.in_position b.events h)
  apply_move-Keeps lo i buy b c d fits h =
      bind-Returns (event_at-Returns i (bytes "buy") c d) λ e (bar, kind, own). returns (
        subst (λ p. IsLedger format_date closes dates false lo (i + 1) (not p) (b.events ++ e ∷ []))
          fits
          (IsLedger-snoc format_date closes dates false lo i b.in_position b.events e h bar
            (kind ∙ ap side (sym fits)) own))
  apply_move-Keeps lo i sell b c d fits h =
      bind-Returns (event_at-Returns i (bytes "sell") c d) λ e (bar, kind, own). returns (
        subst (λ p. IsLedger format_date closes dates false lo (i + 1) (not p) (b.events ++ e ∷ []))
          fits
          (IsLedger-snoc format_date closes dates false lo i b.in_position b.events e h bar
            (kind ∙ ap side (sym fits)) own))

  pub bars_loop-Keeps :
      (decide : ℕ → Book F → Option Move) (lo i count j : ℕ) (b : Book F)
      → ((k : ℕ) (b' : Book F) → i ≤ k → k < j → Returns (Fits b'.in_position) (decide k b'))
      → i + count ≡ j
      → j ≤ length closes
      → length dates ≡ length closes
      → Keeps lo i b
      → Returns (Keeps lo j) (bars_loop format_date closes dates decide i count b)
  unfolding bars_loop
  bars_loop-Keeps decide lo i zero j b decides end le same h =
      returns (subst (λ k. Keeps lo k b) (omega (arith, end)) h)
  bars_loop-Keeps decide lo i (suc count) j b decides end le same h =
      bind-Returns (decides i b (omega arith) (omega arith)) λ move fits.
        bind-Returns (apply_move-Keeps lo i move b (omega arith) (omega arith) fits h) λ b' h'.
          bars_loop-Keeps decide lo (i + 1) count j b'
            (λ k c from upto. decides k c (omega arith) upto) (omega arith) le same h'
