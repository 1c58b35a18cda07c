-- ===== src/Alert.antt =====
-- internal/alert/alert.go: the output of every detector.
use crypto_divergence_engine.Go.Text.{Str}
use crypto_divergence_engine.Go.Time.{Time}

pub data Severity : Type 0 where
  info warning critical : Severity

pub record Alert (F : Type 0) : Type 0 where
  pub detector : Str
  pub symbol : Str
  pub exchange : Str
  pub severity : Severity
  pub message : Str
  pub value : F
  pub threshold : F
  pub timestamp : Time
