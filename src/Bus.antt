-- ===== src/Bus.antt =====
-- internal/bus/redis.go: the streams, and the functions that append to them. encoding/json is a parameter:
-- `marshal` gives the text of a value, or its error. `xadd` is Redis: the error of an XAdd, if it fails.
use crypto_divergence_engine.Prelude.{ℕ, Bool, true, Option, some, List, [], ◌∷◌, ◌++◌}
use crypto_divergence_engine.Go.Text.{Str, bytes}
use crypto_divergence_engine.Tick.{Tick}
use crypto_divergence_engine.Alert.{Alert}

abbrev pub stream_ticks : Str
stream_ticks = bytes "ticks"

abbrev pub stream_alerts : Str
stream_alerts = bytes "alerts"

abbrev pub stream_alerts_clean : Str
stream_alerts_clean = bytes "alerts-clean"

-- the arguments of an XAdd, with the value of "data"
pub record XAddArgs : Type 0 where
  pub stream : Str
  pub max_len : ℕ
  pub approx : Bool
  pub payload : Str

-- What json.Marshal gives.
pub data Marshalled : Type 0 where
  text : Str → Marshalled
  marshal_error : Str → Marshalled

-- the error that is returned, and the XAdd that is made
module _ (xadd : XAddArgs → Option Str) where
  unfoldable pub append_to : Str → ℕ → Marshalled → Option Str × List XAddArgs
  append_to stream max_len (marshal_error e) = (some (bytes "marshal: " ++ e), [])
  append_to stream max_len (text data_) =
      let args : XAddArgs = record {
        stream = stream;
        max_len = max_len;
        approx = true;
        payload = data_;
      } in
      (xadd args, args ∷ [])

  module _ {F : Type 0} where
    unfoldable pub publish : (Tick F → Marshalled) → Str → Tick F → Option Str × List XAddArgs
    publish marshal stream t = append_to stream 100_000 (marshal t)

    unfoldable pub publish_alert_clean :
        (Alert F → Marshalled) → Alert F → Option Str × List XAddArgs
    publish_alert_clean marshal a = append_to stream_alerts_clean 10_000 (marshal a)

    unfoldable pub publish_alert : (Alert F → Marshalled) → Alert F → Option Str × List XAddArgs
    publish_alert marshal a = append_to stream_alerts 10_000 (marshal a)
