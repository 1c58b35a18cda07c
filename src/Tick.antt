-- ===== src/Tick.antt =====
-- internal/tick/tick.go: the wire format of a trade.
use crypto_divergence_engine.Go.Text.{Str}
use crypto_divergence_engine.Go.Time.{Time}

pub record Tick (F : Type 0) : Type 0 where
  pub symbol : Str
  pub exchange : Str
  pub price : F
  pub volume : F
  pub side : Str
  pub trade_id : Str
  pub timestamp : Time
  pub received_at : Time
