-- ===== src/State/RingBuffer/Valid.antt =====
-- internal/state/ringbuffer.go: the representation invariant.
use native.Mathlib.Nat.{mod-add-mod}
use crypto_divergence_engine.Prelude.{
  ℕ, ◌+◌, ◌-◌, ◌%◌, ap, ◌∙◌, ◌≤◌, ◌<◌, ◌≡◌, arith, length, length-set, length-replicate,
}
use crypto_divergence_engine.Go.Time.{Time}
use crypto_divergence_engine.Go.Float.{Float}
use crypto_divergence_engine.State.RingBuffer.{
  RingBuffer, Entry, zero_entry, new_ring_buffer, push, start_of,
}
use crypto_divergence_engine.State.RingBuffer.Slots.{begin-add-mod}

pub record IsValid {F : Type 0} (r : RingBuffer F) : Type 0 where
  pub head_in : r.head < length r.entries
  pub count_in : r.count ≤ length r.entries

module _ {F : Type 0} ⦃fl : Float F⦄ where
  -- A new buffer of positive capacity is valid, empty and of that capacity.
  pub new_ring_buffer-IsValid :
      (capacity : ℕ)
      → 0 < capacity
      → let r = new_ring_buffer {F = F} capacity in
        IsValid r × (r.count ≡ 0) × (length r.entries ≡ capacity)
  unfolding new_ring_buffer
  new_ring_buffer-IsValid capacity h =
      ground (arith, length-replicate {A = Entry F} capacity zero_entry)

  pub length-push :
      (r : RingBuffer F) (at : Time) (v : F) → length (push r at v).entries ≡ length r.entries
  unfolding push
  length-push r at v = length-set r.entries r.head (record { at = at; value = v })

  -- A push into a valid buffer keeps the head inside the slice and the count within its length.
  pub push-IsValid : {r : RingBuffer F} (at : Time) (v : F) → IsValid r → IsValid (push r at v)
  unfolding push
  push-IsValid {r} at v h =
      ground (arith, length-set r.entries r.head (record { at = at; value = v }))

  -- In a valid buffer a walk of at most `count` rounds begins at a slot of the slice, and the
  -- slot of each round is in the slice and as many slots behind the head, going round, as there
  -- are rounds to go.
  pub in_bounds :
      {r : RingBuffer F} (n i : ℕ)
      → IsValid r
      → n ≤ r.count
      → i < n
      → let slot = (start_of r n + i) % length r.entries in
        (start_of r n < length r.entries)
        × (slot < length r.entries)
        × ((slot + (n - i)) % length r.entries ≡ r.head)
  in_bounds {r} n i h le lt = (
    ground arith,
    ground arith,
    mod-add-mod (start_of r n + i) (length r.entries) (n - i)
        ∙ ap (λ k. k % length r.entries) (omega (arith, lt))
        ∙ begin-add-mod r.head n (length r.entries) h.head_in (omega (arith, le, h.count_in)),
  )
