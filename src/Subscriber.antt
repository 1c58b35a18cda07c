-- ===== src/Subscriber.antt =====
-- cmd/subscriber-dev/main.go: a terminal that prints ticks and clean alerts. Redis and encoding/json are
-- parameters. A line is the tick or the alert that it shows: its layout is fmt's.
pub mod Lines
use crypto_divergence_engine.Prelude.{Option, none, some, List, [], ◌∷◌, ◌++◌, if◌then◌else◌}
use crypto_divergence_engine.Go.Text.{Str, bytes, str_eq}
use crypto_divergence_engine.Tick.{Tick}
use crypto_divergence_engine.Alert.{Alert}
use crypto_divergence_engine.Bus.{stream_ticks, stream_alerts_clean}
use crypto_divergence_engine.Worker.{Message}
use crypto_divergence_engine.Dashboard.Reader.{Stream, Reply, cancelled, timeout, failed, streams}

pub data Line (F : Type 0) : Type 0 where
  tick_line : Tick F → Line F
  alert_line : Alert F → Line F

-- the ids after which the next read goes on, and what has been printed
pub record Terminal (F : Type 0) : Type 0 where
  pub ticks_id : Str
  pub alerts_id : Str
  pub lines : List (Line F)

module _ {F : Type 0} (parse_tick : Str → Option (Tick F))
    (parse_alert : Str → Option (Alert F)) where
  unfoldable pub print_tick : Message → List (Line F)
  print_tick msg = elim msg.payload [
    | none ↦ []
    | some text ↦ elim (parse_tick text) [ none ↦ [] | some t ↦ tick_line t ∷ [] ]
  ]

  unfoldable pub print_alert : Message → List (Line F)
  print_alert msg = elim msg.payload [
    | none ↦ []
    | some text ↦ elim (parse_alert text) [ none ↦ [] | some a ↦ alert_line a ∷ [] ]
  ]

  -- the switch on a message's stream
  unfoldable pub take_message : Str → Message → Terminal F → Terminal F
  take_message stream msg r =
      if str_eq stream stream_ticks
      then record r { ticks_id = msg.id; lines = r.lines ++ print_tick msg }
      else if str_eq stream stream_alerts_clean
      then record r { alerts_id = msg.id; lines = r.lines ++ print_alert msg }
      else r

  unfoldable pub take_messages : Str → List Message → Terminal F → Terminal F
  take_messages stream [] r = r
  take_messages stream (msg ∷ msgs) r = take_messages stream msgs (take_message stream msg r)

  unfoldable pub take_batch : List Stream → Terminal F → Terminal F
  take_batch [] r = r
  take_batch (s ∷ rest) r = take_batch rest (take_messages s.stream s.messages r)

  -- the loop of main over what XRead returns: it ends when the context is done
  unfoldable pub listen : List Reply → Terminal F → Terminal F
  listen [] r = r
  listen (cancelled ∷ replies) r = r
  listen (timeout ∷ replies) r = listen replies r
  listen (failed ∷ replies) r = listen replies r
  listen (streams batch ∷ replies) r = listen replies (take_batch batch r)

unfoldable pub new_terminal : {F : Type 0} → Terminal F
new_terminal = record { ticks_id = bytes "$"; alerts_id = bytes "$"; lines = [] }
