-- ===== src/Aggregator/Stream.antt =====
-- cmd/aggregator: the loop over the messages of the raw stream.
use crypto_divergence_engine.Prelude.{
  ◌≡◌, refl, ap, Option, none, some, List, [], ◌∷◌, ◌++◌, arith, Option-cases, inl, inr,
}
use crypto_divergence_engine.Go.Text.{Str}
use crypto_divergence_engine.Go.Time.{Time}
use crypto_divergence_engine.Alert.{Alert}
use crypto_divergence_engine.Worker.{Message}
use crypto_divergence_engine.Aggregator.{Aggregator, handle}
use crypto_divergence_engine.Aggregator.Dedup.{Event, alert, run, run-append}

module _ {F : Type 0} (parse : Str → Option (Alert F)) where
  -- The loop over the messages, each with the clock's time.
  unfoldable pub handle_all : List (Message × Time) → Aggregator → Aggregator × List (Alert F)
  handle_all [] s = (s, [])
  handle_all ((msg, now) ∷ msgs) s =
      let (s', published) = handle parse msg now s in
      let (s'', later) = handle_all msgs s' in (s'', published ++ later)

  -- what a message asks of the deduper
  abbrev pub event_of : Message → Time → List (Event F)
  event_of msg now = elim msg.payload [
    | none ↦ []
    | some text ↦ elim (parse text) [ none ↦ [] | some a ↦ alert a now ∷ [] ]
  ]

  abbrev pub events_of : List (Message × Time) → List (Event F)
  events_of [] = []
  events_of ((msg, now) ∷ msgs) = event_of msg now ++ events_of msgs

  -- the id of the last message, or the one before
  abbrev pub last_of : List (Message × Time) → Str → Str
  last_of [] i = i
  last_of ((msg, now) ∷ msgs) i = last_of msgs msg.id

  handle-eq :
      (msg : Message) (now : Time) (s : Aggregator)
      → let r = run (event_of msg now) s.deduper in
        handle parse msg now s ≡ (record { deduper = r.0; last_id = msg.id }, r.1)
  unfolding handle run
  handle-eq msg now s = elim (Option-cases msg.payload) [
    | inl e ↦ ground arith
    | inr (text, e) ↦ elim (Option-cases (parse text)) [
      | inl f ↦ ground arith
      | inr (a, f) ↦ ground arith
    ]
  ]

  -- The aggregator's loop publishes just the readable alerts that the deduper passes, in order,
  -- and its next read goes on after the last message, readable or not.
  pub handle_all-eq :
      (msgs : List (Message × Time)) (s : Aggregator)
      → ((handle_all msgs s).1 ≡ (run (events_of msgs) s.deduper).1)
        × ((handle_all msgs s).0.deduper ≡ (run (events_of msgs) s.deduper).0)
        × ((handle_all msgs s).0.last_id ≡ last_of msgs s.last_id)
  unfolding handle_all
  handle_all-eq [] s = unfold run in (refl, refl, refl)
  handle_all-eq ((msg, now) ∷ msgs) s =
      let ev = event_of msg now in
      let r = run ev s.deduper in
      let s' : Aggregator = record { deduper = r.0; last_id = msg.id } in
      let (published, deduper, last) = handle_all-eq msgs s' in
      let split = run-append ev (events_of msgs) s.deduper in
      rw (handle-eq msg now s, split) (ap (λ l. r.1 ++ l) published, deduper, last)
