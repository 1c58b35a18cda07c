-- ===== src/Worker.antt =====
-- cmd/detector: a worker reads messages from the tick stream, runs the registry, publishes the alerts
-- and acknowledges each message. Redis and encoding/json are parameters: a message's "data" field is
-- an option (`none` where it is missing or no string), and `parse` is json.Unmarshal.
pub mod Acks
use crypto_divergence_engine.Prelude.{Option, none, some, List, [], ◌∷◌, ◌++◌, map}
use crypto_divergence_engine.Go.Text.{Str}
use crypto_divergence_engine.Tick.{Tick}
use crypto_divergence_engine.Alert.{Alert}
use crypto_divergence_engine.Detectors.Registry.{Registry}
use crypto_divergence_engine.Detectors.Registry

pub record Message : Type 0 where
  pub id : Str
  pub payload : Option Str

-- What XReadGroup returns: the context is done, the block timed out, another error, or streams.
pub data Reply : Type 0 where
  cancelled timeout failed : Reply
  streams : List (List Message) → Reply

-- What the worker does to the outside, in order.
pub data Effect (F : Type 0) : Type 0 where
  publish : Alert F → Effect F
  ack : Str → Effect F

-- One PublishAlert for each alert: an error of it is only logged.
abbrev pub published : {F : Type 0} → List (Alert F) → List (Effect F)
published = map publish

module _ {F : Type 0} (parse : Str → Option (Tick F)) where
  -- process: the deferred acknowledgement runs last, on every path
  unfoldable pub process : Message → Registry F → Registry F × List (Effect F)
  process msg reg = elim msg.payload [
    | none ↦ (reg, ack msg.id ∷ [])
    | some text ↦ elim (parse text) [
      | none ↦ (reg, ack msg.id ∷ [])
      | some t ↦
          let (reg', alerts) = Registry.on_tick t reg in (reg', published alerts ++ ack msg.id ∷ [])
    ]
  ]

  unfoldable pub process_all : List Message → Registry F → Registry F × List (Effect F)
  process_all [] reg = (reg, [])
  process_all (msg ∷ msgs) reg =
      let (reg', now) = process msg reg in
      let (reg'', later) = process_all msgs reg' in (reg'', now ++ later)

  unfoldable pub process_streams : List (List Message) → Registry F → Registry F × List (Effect F)
  process_streams [] reg = (reg, [])
  process_streams (msgs ∷ rest) reg =
      let (reg', now) = process_all msgs reg in
      let (reg'', later) = process_streams rest reg' in (reg'', now ++ later)

  -- The loop of main over what XReadGroup returns: it ends when the context is done.
  unfoldable pub main_loop : List Reply → Registry F → Registry F × List (Effect F)
  main_loop [] reg = (reg, [])
  main_loop (cancelled ∷ replies) reg = (reg, [])
  main_loop (timeout ∷ replies) reg = main_loop replies reg
  main_loop (failed ∷ replies) reg = main_loop replies reg
  main_loop (streams batch ∷ replies) reg =
      let (reg', now) = process_streams batch reg in
      let (reg'', later) = main_loop replies reg' in (reg'', now ++ later)
