-- ===== src/Aggregator.antt =====
-- cmd/aggregator: alerts are read from the raw stream, deduplicated, and published on the clean stream.
-- Redis and encoding/json are parameters, as for the worker; the clock reading of `time.Now` comes with
-- each message and each cleanup.
pub mod Key
pub mod Dedup
pub mod Stream
use crypto_divergence_engine.Prelude.{
  ℕ, ◌+◌, ◌*◌, Bool, true, false, not, Option, none, some, List, [], ◌∷◌, ◌++◌, select,
  if◌then◌else◌,
}
use crypto_divergence_engine.Go.Text.{Str, bytes, format_int}
use crypto_divergence_engine.Go.Map.{Map, lookup, insert}
use crypto_divergence_engine.Go.Time.{Time, truncate, unix, before_cutoff}
use crypto_divergence_engine.Alert.{Alert}
use crypto_divergence_engine.Worker.{Message}

-- the alerts that were passed on, with the clock's time
pub record Deduper : Type 0 where
  pub cache : Map Time
  pub window : ℕ

unfoldable pub new_deduper : ℕ → Deduper
new_deduper window = record { cache = []; window = window }

-- fmt.Sprintf("%s:%s:%d", Detector, Symbol, Timestamp.Truncate(window).Unix())
unfoldable pub dedup_key : {F : Type 0} → ℕ → Alert F → Str
dedup_key window a =
    a.detector
    ++ (bytes ":" ++ (a.symbol ++ (bytes ":" ++ format_int (unix (truncate a.timestamp window)))))

unfoldable pub is_dup : {F : Type 0} → Alert F → Time → Deduper → Deduper × Bool
is_dup a now d =
    let key = dedup_key d.window a in
    elim (lookup key d.cache) [
      | some seen ↦ (d, true)
      | none ↦ (record d { cache = insert key now d.cache }, false)
    ]

-- one round of cleanupLoop
unfoldable pub cleanup : Time → Deduper → Deduper
cleanup now d = record d {
  cache = select (λ e. not (before_cutoff e.1 now (2 * d.window))) d.cache;
}

pub record Aggregator : Type 0 where
  pub deduper : Deduper
  pub last_id : Str

module _ {F : Type 0} (parse : Str → Option (Alert F)) where
  -- the body of the loop over the messages: the new state, and what is published
  unfoldable pub handle : Message → Time → Aggregator → Aggregator × List (Alert F)
  handle msg now s0 =
      let s : Aggregator = record s0 { last_id = msg.id } in
      elim msg.payload [
        | none ↦ (s, [])
        | some text ↦ elim (parse text) [
          | none ↦ (s, [])
          | some a ↦
              let (deduper', dup) = is_dup a now s.deduper in
              (record s { deduper = deduper' }, if dup then [] else a ∷ [])
        ]
      ]
