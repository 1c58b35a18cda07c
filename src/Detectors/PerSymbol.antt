-- ===== src/Detectors/PerSymbol.antt =====
-- What the detectors that keep one state per symbol have in common: OnTick is Use on the sharded map
-- with the tick's symbol, and the callback is a step of the symbol's own machine.
pub mod Isolation
pub mod Spacing
use crypto_divergence_engine.Prelude.{ℕ, ◌+◌, ◌≤◌, ◌≡◌, List, [], ◌∷◌, ◌++◌, ◌⊎◌}
use crypto_divergence_engine.Go.Text.{Str}
use crypto_divergence_engine.Go.Time.{Time}
use crypto_divergence_engine.State.ShardedMap.{ShardedMap, use_value}
use crypto_divergence_engine.Tick.{Tick}
use crypto_divergence_engine.Alert.{Alert}

-- One symbol's machine: the state that `create` makes, the callback, and the state's lastAlert. The
-- correlation detector has such a machine for each pair of symbols.
pub record Machine (F : Type 0) : Type 1 where
  pub State : Type 0
  pub created : State
  pub step : Tick F → State → State × List (Alert F)
  -- the Symbol of its alerts
  pub subject : Tick F → Str
  pub last_alert : State → Time
  pub cooldown : ℕ

-- What a step of a machine may do about alerts: none, or one at the tick's time for the machine's
-- subject, at least the cooldown after the last.
pub data Emits {F : Type 0} (m : Machine F) (t : Tick F) (s : m.State) : Type 0 where
  quiet : (m.step t s).1 ≡ [] → m.last_alert (m.step t s).0 ≡ m.last_alert s → Emits m t s
  fires :
      (a : Alert F)
      → (m.step t s).1 ≡ a ∷ []
      → a.symbol ≡ m.subject t
      → a.timestamp ≡ t.timestamp
      → m.last_alert (m.step t s).0 ≡ t.timestamp
      → m.last_alert s + m.cooldown ≤ t.timestamp
      → Emits m t s

module _ {F : Type 0} (m : Machine F) where
  abbrev pub IsThrottled : Type 0
  IsThrottled = (t : Tick F) (s : m.State) → Emits m t s

  -- OnTick
  unfoldable pub on_tick : Tick F → ShardedMap m.State → ShardedMap m.State × List (Alert F)
  on_tick t symbols = use_value symbols t.symbol m.created (m.step t)

  -- The calls of OnTick for the ticks in order, with the alerts of all of them.
  unfoldable pub run : List (Tick F) → ShardedMap m.State → ShardedMap m.State × List (Alert F)
  run [] symbols = (symbols, [])
  run (t ∷ ts) symbols =
      let (symbols', alerts) = on_tick t symbols in
      let (symbols'', later) = run ts symbols' in (symbols'', alerts ++ later)

  -- One symbol's machine alone, on the ticks of that symbol.
  unfoldable pub run_one : List (Tick F) → m.State → m.State × List (Alert F)
  run_one [] s = (s, [])
  run_one (t ∷ ts) s =
      let (s', alerts) = m.step t s in let (s'', later) = run_one ts s' in (s'', alerts ++ later)
