-- ===== src/Ingester/Reconnect.antt =====
-- cmd/ingester-binance: the waits between reconnections.
use native.Mathlib.Nat.{pow-suc}
use crypto_divergence_engine.Prelude.{ℕ, zero, suc, ◌*◌, ◌^◌, ◌≡◌, refl, arith, min}
use crypto_divergence_engine.Go.Time.{second}
use crypto_divergence_engine.Ingester.{next_backoff, backoff_after, max_backoff}

-- The waits between reconnections double from one second, and stay at thirty seconds from the
-- sixth on.
pub backoff_after-eq : (n : ℕ) → backoff_after n ≡ min (2 ^ n * second) max_backoff
unfolding backoff_after next_backoff
backoff_after-eq zero = refl
backoff_after-eq (suc n) = omega (arith, backoff_after-eq n, pow-suc 2 n)
