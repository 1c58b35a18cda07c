-- ===== src/Dashboard/Reader.antt =====
-- cmd/dashboard/main.go: readStreams, which passes ticks and clean alerts on to the hub. Redis is a
-- parameter: what each XRead returns. A stream's position is the id after which the next read goes on.
pub mod Positions
use crypto_divergence_engine.Prelude.{none, some, List, [], ◌∷◌, if◌then◌else◌}
use crypto_divergence_engine.Go.Text.{Str, bytes, str_eq}
use crypto_divergence_engine.Bus.{stream_ticks, stream_alerts_clean}
use crypto_divergence_engine.Worker.{Message}
use crypto_divergence_engine.Dashboard.Hub.{Hub, broadcast}

-- a stream of a reply: its name and its messages
pub record Stream : Type 0 where
  pub stream : Str
  pub messages : List Message

-- What XRead returns: the context is done, the block timed out, another error, or streams.
pub data Reply : Type 0 where
  cancelled timeout failed : Reply
  streams : List Stream → Reply

pub record Reader : Type 0 where
  pub ticks_id : Str
  pub alerts_id : Str
  pub hub : Hub

unfoldable pub new_reader : Hub → Reader
new_reader h = record { ticks_id = bytes "$"; alerts_id = bytes "$"; hub = h }

-- the body of the loop over the messages of a stream
unfoldable pub read_message : Str → Message → Reader → Reader
read_message stream msg r = elim msg.payload [
  | none ↦ r
  | some data_ ↦
      if str_eq stream stream_ticks
      then record r { ticks_id = msg.id; hub = broadcast (bytes "tick") data_ r.hub }
      else if str_eq stream stream_alerts_clean
      then record r { alerts_id = msg.id; hub = broadcast (bytes "alert") data_ r.hub }
      else r
]

unfoldable pub read_messages : Str → List Message → Reader → Reader
read_messages stream [] r = r
read_messages stream (msg ∷ msgs) r = read_messages stream msgs (read_message stream msg r)

unfoldable pub read_batch : List Stream → Reader → Reader
read_batch [] r = r
read_batch (s ∷ rest) r = read_batch rest (read_messages s.stream s.messages r)

-- readStreams over what XRead returns: it ends when the context is done.
unfoldable pub read_streams : List Reply → Reader → Reader
read_streams [] r = r
read_streams (cancelled ∷ replies) r = r
read_streams (timeout ∷ replies) r = read_streams replies r
read_streams (failed ∷ replies) r = read_streams replies r
read_streams (streams batch ∷ replies) r = read_streams replies (read_batch batch r)
