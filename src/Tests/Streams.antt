-- ===== src/Tests/Streams.antt =====
-- The detector worker and the aggregator on concrete messages.
use crypto_divergence_engine.Prelude.{
  ◌+◌, ◌*◌, ◌≡◌, ◌≤◌, ◌↔◌, refl, true, false, Option, none, some, List, [], ◌∷◌, arith, All,
  if◌then◌else◌,
}
use crypto_divergence_engine.Prelude.Int.{ℤ}
use crypto_divergence_engine.Go.Text.{Str, bytes, str_eq, format_int}
use crypto_divergence_engine.Go.Text.Digits.{NoColon}
use crypto_divergence_engine.Go.Time.{Time, second, minute, truncate, unix}
use crypto_divergence_engine.Go.Map.{lookup}
use crypto_divergence_engine.Tick.{Tick}
use crypto_divergence_engine.Alert.{Alert}
use crypto_divergence_engine.Detectors.Registry.{Registry, new_registry}
use crypto_divergence_engine.Worker.{Message, Reply, cancelled, timeout, streams, main_loop}
use crypto_divergence_engine.Worker.Acks.{Handles, received, main_loop-Handles}
use crypto_divergence_engine.Aggregator.{Aggregator, Deduper, new_deduper, dedup_key, is_dup}
use crypto_divergence_engine.Aggregator.Dedup
use crypto_divergence_engine.Aggregator.Dedup.{
  alert, clean, no_repeat, has_key, offered, run-passes,
}
use crypto_divergence_engine.Aggregator.Key.{is_dup_second, minute_boundary}
use crypto_divergence_engine.Aggregator.Stream.{handle_all, events_of, last_of, handle_all-eq}
use crypto_divergence_engine.Tests.Data.{whole_numbers, ascii_only, start, trade, spike}

abbrev btc : Str
btc = bytes "BTC-USDT"

-- The texts "buy" and "sell" stand for two ticks; any other text cannot be read.
abbrev parse_tick : Str → Option (Tick ℤ)
parse_tick text =
    if str_eq text (bytes "buy")
    then some (trade btc (bytes "buy") 100 2 start)
    else if str_eq text (bytes "sell")
    then some (trade btc (bytes "sell") 99 1 (start + second))
    else none

abbrev message : Str → Option Str → Message
message id payload = record { id = id; payload = payload }

-- a batch with a readable tick, a broken one and a message without data, and one after a timeout
abbrev replies : List Reply
replies =
    streams (
      (message (bytes "1-0") (some (bytes "buy"))
        ∷ message (bytes "2-0") (some (bytes "?"))
        ∷ message (bytes "3-0") none
        ∷ [])
      ∷ [])
    ∷ timeout
    ∷ streams ((message (bytes "4-0") (some (bytes "sell")) ∷ []) ∷ [])
    ∷ cancelled
    ∷ []

abbrev registry : Registry ℤ
registry = new_registry

main_loop-Handles_example :
    Handles parse_tick (received replies) registry (main_loop parse_tick replies registry)
main_loop-Handles_example = main_loop-Handles parse_tick replies registry

-- two alerts of one minute, and a third in the next
abbrev first_alert : Alert ℤ
first_alert = spike btc start

abbrev second_alert : Alert ℤ
second_alert = spike btc (start + 59 * second)

abbrev third_alert : Alert ℤ
third_alert = spike btc (start + minute)

abbrev deduper : Deduper
deduper = new_deduper minute

first_passed : (is_dup first_alert start deduper).1 ≡ false
unfolding is_dup new_deduper lookup
first_passed = refl

same_key : dedup_key deduper.window second_alert ≡ dedup_key deduper.window first_alert
unfolding dedup_key new_deduper truncate
same_key = refl

abbrev between : List (Dedup.Event ℤ)
between = clean (start + minute) ∷ alert third_alert (start + minute) ∷ []

within : All (λ e. Dedup.time_of e ≤ start + 2 * deduper.window) between
unfolding new_deduper
within = (omega arith, (omega arith, tt))

no_repeat_example :
    (is_dup second_alert
      (start + 2 * minute)
      (Dedup.run between (is_dup first_alert start deduper).0).0).1
    ≡ true
no_repeat_example =
    no_repeat first_alert second_alert start (start + 2 * minute) between deduper first_passed
      within same_key

third_offered : has_key minute (dedup_key minute third_alert) (offered between) ≡ true
unfolding dedup_key truncate unix format_int str_eq
third_offered = refl

run-passes_example :
    has_key minute (dedup_key minute third_alert) (Dedup.run between (new_deduper minute)).1 ≡ true
run-passes_example = run-passes minute (dedup_key minute third_alert) between third_offered

plain : NoColon (bytes "volume_spike")
plain = ground arith

is_dup_second_example :
    ((is_dup second_alert (start + minute) (is_dup first_alert start (new_deduper minute)).0).1
      ≡ true)
    ↔ ((first_alert.detector ≡ second_alert.detector)
        × (first_alert.symbol ≡ second_alert.symbol)
        × (truncate first_alert.timestamp minute ≡ truncate second_alert.timestamp minute))
is_dup_second_example = is_dup_second first_alert second_alert plain plain start (start + minute)

-- the last nanosecond of a minute, and the first of the next
abbrev last_alert : Alert ℤ
last_alert = spike btc (start + 59_999_999_999)

minute_boundary_example :
    (is_dup third_alert
      (start + minute)
      (is_dup last_alert (start + minute) (new_deduper minute)).0).1
    ≡ false
minute_boundary_example =
    minute_boundary last_alert third_alert plain plain (start + minute) (start + minute) refl refl

abbrev parse_alert : Str → Option (Alert ℤ)
parse_alert text = if str_eq text (bytes "spike") then some first_alert else none

abbrev aggregator : Aggregator
aggregator = record { deduper = new_deduper minute; last_id = bytes "0" }

abbrev messages : List (Message × Time)
messages =
    (message (bytes "1-0") (some (bytes "spike")), start)
    ∷ (message (bytes "2-0") none, start)
    ∷ (message (bytes "3-0") (some (bytes "spike")), start + second)
    ∷ []

handle_all-eq_example :
    let (end, published) = handle_all parse_alert messages aggregator in
    let (deduper', passed) = Dedup.run (events_of parse_alert messages) aggregator.deduper in
    (published ≡ passed)
    × (end.deduper ≡ deduper')
    × (end.last_id ≡ last_of parse_alert messages aggregator.last_id)
handle_all-eq_example = handle_all-eq parse_alert messages aggregator
