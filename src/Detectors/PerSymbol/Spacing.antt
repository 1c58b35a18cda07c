-- ===== src/Detectors/PerSymbol/Spacing.antt =====
-- The cooldown over a whole run of one symbol's machine.
use crypto_divergence_engine.Prelude.{ℕ, ◌+◌, ◌≤◌, List, [], ◌∷◌, ◌++◌}
use mathlib.Core.Path.{subst, sym as sym_path, ◌∙◌}
use crypto_divergence_engine.Go.Time.{Time}
use crypto_divergence_engine.Tick.{Tick}
use crypto_divergence_engine.Alert.{Alert}
use crypto_divergence_engine.Detectors.PerSymbol.{
  Machine, Emits, quiet, fires, IsThrottled, run_one,
}

-- The alerts come at least `gap` after one another, the first at least `gap` after `since`.
abbrev pub IsSpaced : {F : Type 0} → ℕ → Time → List (Alert F) → Type 0
IsSpaced gap since [] = Unit
IsSpaced gap since (a ∷ rest) = (since + gap ≤ a.timestamp) × IsSpaced gap a.timestamp rest

module _ {F : Type 0} (m : Machine F) (throttled : IsThrottled m) where
  IsSpaced-step :
      (t : Tick F) (s : m.State) (later : List (Alert F))
      → IsSpaced m.cooldown (m.last_alert (m.step t s).0) later
      → Emits m t s
      → IsSpaced m.cooldown (m.last_alert s) ((m.step t s).1 ++ later)
  IsSpaced-step t s later h (quiet e l) = rw e (subst (λ x. IsSpaced m.cooldown x later) l h)
  IsSpaced-step t s later h (fires a e sym at l gap) =
      rw e (rw at gap, subst (λ x. IsSpaced m.cooldown x later) (l ∙ sym_path at) h)

  -- Whatever the ticks and their order, the alerts of one machine that is throttled are at least
  -- its cooldown apart, each later than the one before.
  pub run_one-IsSpaced :
      (ts : List (Tick F)) (s : m.State) → IsSpaced m.cooldown (m.last_alert s) (run_one m ts s).1
  unfolding run_one
  run_one-IsSpaced [] s = tt
  run_one-IsSpaced (t ∷ ts) s =
      IsSpaced-step t s (run_one m ts (m.step t s).0).1 (run_one-IsSpaced ts (m.step t s).0)
        (throttled t s)
