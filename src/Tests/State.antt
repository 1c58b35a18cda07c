-- ===== src/Tests/State.antt =====
-- internal/state on concrete buffers and maps.
use crypto_divergence_engine.Prelude.{
  ℕ, ◌+◌, ◌*◌, ◌≡◌, ◌<◌, ◌%◌, refl, some, List, [], ◌∷◌, map, arith, length, take_last, select,
  foldl, if◌then◌else◌,
}
use crypto_divergence_engine.Prelude.Int.{ℤ, pos, ◌+ℤ◌}
use crypto_divergence_engine.Go.Text.{Str, bytes, str_eq}
use crypto_divergence_engine.Go.Time.{second, after_cutoff}
use crypto_divergence_engine.State.RingBuffer.{
  RingBuffer, Entry, new_ring_buffer, push, start_of, sum_since, slice,
}
use crypto_divergence_engine.State.RingBuffer.Valid.{IsValid, in_bounds}
use crypto_divergence_engine.State.RingBuffer.Reads.{contents}
use crypto_divergence_engine.State.RingBuffer.Refine.{contents-push_all, push_all}
use crypto_divergence_engine.State.RingBuffer.Queries.{sum_since-eq-foldl, slice-eq-take_last}
use crypto_divergence_engine.State.ShardedMap.{empty, use_value, found_or}
use crypto_divergence_engine.State.ShardedMap.Laws
use crypto_divergence_engine.State.ShardedMap.Laws.{
  find, find-use_value, use_value-IsValid, fnv32-lt, empty-IsValid,
}
use crypto_divergence_engine.Tests.Data.{whole_numbers, start}

abbrev entry : ℕ → ℕ → Entry ℤ
entry seconds value = record { at = start + seconds * second; value = pos value }

-- two slots, written to three times
abbrev three : List (Entry ℤ)
three = entry 0 7 ∷ entry 1 8 ∷ entry 2 9 ∷ []

abbrev full : RingBuffer ℤ
full = record { entries = entry 2 9 ∷ entry 1 8 ∷ []; head = 1; count = 2 }

full-IsValid : IsValid full
full-IsValid = record { head_in = omega arith; count_in = omega arith }

three_pushes : push_all (new_ring_buffer 2) three ≡ full
unfolding push new_ring_buffer
three_pushes = refl

contents-push_all_example : contents (push_all (new_ring_buffer 2) three) ≡ take_last 2 three
contents-push_all_example = contents-push_all 2 three (omega arith)

in_bounds_example :
    (start_of full 2 < length full.entries)
    × ((start_of full 2 + 1) % length full.entries < length full.entries)
    × (((start_of full 2 + 1) % length full.entries + 1) % length full.entries ≡ full.head)
in_bounds_example = in_bounds 2 1 full-IsValid (omega arith) (omega arith)

sum_since-eq-foldl_example :
    sum_since full (start + 3 * second) (2 * second)
    ≡ foldl
        (λ a b. a +ℤ b)
        (pos 0)
        (map
          (λ e. e.value)
          (select (λ e. after_cutoff e.at (start + 3 * second) (2 * second)) (contents full)))
sum_since-eq-foldl_example = sum_since-eq-foldl full (start + 3 * second) (2 * second)

slice-eq-take_last_example : slice full 1 ≡ take_last 1 (map (λ e. e.value) (contents full))
slice-eq-take_last_example = slice-eq-take_last full 1 full-IsValid

-- A map that counts its calls under each key.
abbrev count : ℕ → ℕ × ℕ
count n = (n + 1, n)

abbrev btc : Str
btc = bytes "BTC-USDT"

abbrev eth : Str
eth = bytes "ETH-USDT"

use_value-IsValid_example : Laws.IsValid (use_value empty btc 0 count).0
use_value-IsValid_example = use_value-IsValid btc 0 count empty-IsValid

find-use_value_example :
    find (use_value empty btc 0 count).0 eth
    ≡ (if str_eq btc eth then some (count (found_or (find empty btc) 0)).0 else find empty eth)
find-use_value_example = find-use_value btc eth 0 count empty-IsValid
