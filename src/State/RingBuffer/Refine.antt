-- ===== src/State/RingBuffer/Refine.antt =====
-- internal/state/ringbuffer.go: the buffer as a list of entries.
use native.Mathlib.Nat.{zero-add}
use native.Mathlib.Numerals.{add-one}
use native.Mathlib.Decide.{dec_lt}
use crypto_divergence_engine.Prelude.{
  ℕ, zero, suc, ◌+◌, ◌%◌, ◌≤◌, ◌<◌, ◌≡◌, ◌≢◌, refl, sym, ◌∙◌, ap, ap₂, List, [], ◌∷◌, ◌++◌, arith,
  length, set, get_or-set_self, get_or-set_ne, length-set, lt→ltb, take_last, take_last-all,
  take_last-append, append-nil, append_assoc, drop, drop-append, length-append, ltb, false,
}
use crypto_divergence_engine.Go.Time.{Time}
use crypto_divergence_engine.Go.Float.{Float}
use crypto_divergence_engine.State.RingBuffer.{
  RingBuffer, Entry, entry_at, start_of, zero_entry, push, new_ring_buffer,
}
use crypto_divergence_engine.State.RingBuffer.Valid.{
  IsValid, push-IsValid, length-push, new_ring_buffer-IsValid,
}
use crypto_divergence_engine.State.RingBuffer.Reads.{
  reads, contents, length-reads, reads-snoc, reads-shift,
}
use crypto_divergence_engine.State.RingBuffer.Slots.{
  mod-add-ne, begin, begin_room, begin_full, begin-add-mod,
}

module _ {F : Type 0} ⦃fl : Float F⦄ where
  entry_at-set :
      (es : List (Entry F)) (e : Entry F) (h s i : ℕ)
      → h ≢ (s + i) % length es
      → entry_at (set es h e) s i ≡ entry_at es s i
  entry_at-set es e h s i ne = rw (length-set es h e) (get_or-set_ne es e zero_entry ne)

  entry_at-set_self :
      (es : List (Entry F)) (e : Entry F) (h s i : ℕ)
      → h < length es
      → (s + i) % length es ≡ h
      → entry_at (set es h e) s i ≡ e
  entry_at-set_self es e h s i k eq =
      rw (length-set es h e, eq) (get_or-set_self es h e zero_entry k)

  -- A write outside the range that is read does not show.
  reads-set :
      (es : List (Entry F)) (e : Entry F) (h s w i n : ℕ)
      → h ≡ (s + w) % length es
      → i + n ≤ w
      → w < i + length es
      → reads (set es h e) s i n ≡ reads es s i n
  reads-set es e h s w i zero eq le lt = refl
  reads-set es e h s w i (suc n) eq le lt =
      ap₂ ◌∷◌
        (entry_at-set es e h s i
          (rw eq (λ q. mod-add-ne s i w (length es) (omega arith) (omega arith) (sym q))))
        (reads-set es e h s w (i + 1) n eq (omega arith) (omega arith))

  -- The slots read after a write at the end of the range.
  reads-set_snoc :
      (es : List (Entry F)) (e : Entry F) (h s i n : ℕ)
      → h < length es
      → (s + (i + n)) % length es ≡ h
      → n < length es
      → reads (set es h e) s i (suc n) ≡ reads es s i n ++ e ∷ []
  reads-set_snoc es e h s i n hh eq lt =
      reads-snoc (set es h e) s i n
      ∙ ap₂ (λ l x. l ++ x ∷ [])
          (reads-set es e h s (i + n) i n (sym eq) (omega arith) (omega arith))
          (entry_at-set_self es e h s (i + n) hh eq)

  contents-push_room :
      (r : RingBuffer F) (at : Time) (v : F)
      → IsValid r
      → r.count < length r.entries
      → contents (push r at v) ≡ contents r ++ record { at = at; value = v } ∷ []
  unfolding push
  contents-push_room r at v h room =
      let m = length r.entries in
      let e : Entry F = record { at = at; value = v } in
      rw
        (
          lt→ltb r.count m room,
          length-set r.entries r.head e,
          begin_room r.head r.count m h.head_in room,
          add-one,
        )
        (reads-set_snoc r.entries e r.head (begin r.head m r.count) 0 r.count h.head_in
          (rw zero-add (begin-add-mod r.head r.count m h.head_in h.count_in)) room)

  -- A write over the oldest entry of a full buffer.
  reads_full :
      (es : List (Entry F)) (e : Entry F) (h c : ℕ)
      → h < length es
      → length es ≡ c
      → reads (set es h e) (begin ((h + 1) % length es) (length es) c) 0 c
        ≡ drop 1 (reads es (begin h (length es) c) 0 c) ++ e ∷ []
  reads_full es e h zero hh full = absurd (omega arith)
  reads_full es e h (suc k) hh full =
      ap (λ b. reads (set es h e) b 0 (suc k)) begin_next
      ∙ ap (λ l. reads (set es h e) ((h + 1) % l) 0 (suc k)) (sym (length-set es h e))
      ∙ reads-shift (set es h e) h 0 (suc k)
      ∙ reads-set_snoc es e h h 1 k hh (grind arith) (omega arith)
      ∙ ap (λ b. drop 1 (reads es b 0 (suc k)) ++ e ∷ []) (sym begin_h)
    where
      begin_next : begin ((h + 1) % length es) (length es) (suc k) ≡ (h + 1) % length es
      begin_next = rw (← full) (begin_full h (length es) hh)

      begin_h : begin h (length es) (suc k) ≡ h
      begin_h = ground arith

  contents-push_full :
      (r : RingBuffer F) (at : Time) (v : F)
      → IsValid r
      → length r.entries ≡ r.count
      → contents (push r at v) ≡ drop 1 (contents r) ++ record { at = at; value = v } ∷ []
  unfolding push
  contents-push_full r at v h full =
      let e : Entry F = record { at = at; value = v } in
      let stay : ltb r.count (length r.entries) ≡ false = ground arith in
      rw (stay, length-set r.entries r.head e)
        (reads_full r.entries e r.head r.count h.head_in full)

  -- A push into a valid buffer appends an entry, and drops the oldest if the buffer was full.
  pub contents-push :
      (r : RingBuffer F) (at : Time) (v : F)
      → IsValid r
      → contents (push r at v)
        ≡ take_last (length r.entries) (contents r ++ record { at = at; value = v } ∷ [])
  contents-push r at v h = elim (dec_lt r.count (length r.entries)) [
    | yes room ↦
        contents-push_room r at v h room
        ∙ sym (take_last-all (length r.entries) (contents r ++ e ∷ []) (omega (arith, total)))
    | no full ↦
        contents-push_full r at v h (omega arith)
        ∙ sym (drop-append 1 (contents r) (e ∷ []) (omega (arith, held)))
        ∙ ap (λ k. drop k (contents r ++ e ∷ [])) {x = 1} (omega (arith, total))
  ]
    where
      e : Entry F
      e = record { at = at; value = v }

      held : length (contents r) ≡ r.count
      held = length-reads r.entries (start_of r r.count) 0 r.count

      total : length (contents r ++ e ∷ []) ≡ r.count + 1
      total = omega (arith, held, length-append {0} (contents r) (e ∷ []))

  -- Pushing a list of entries in order.
  abbrev pub push_all : RingBuffer F → List (Entry F) → RingBuffer F
  push_all r [] = r
  push_all r (e ∷ es) = push_all (push r e.at e.value) es

  push_all-contents :
      (r : RingBuffer F) (es : List (Entry F))
      → IsValid r
      → contents (push_all r es) ≡ take_last (length r.entries) (contents r ++ es)
  push_all-contents r [] h = sym (
      ap (take_last (length r.entries)) (append-nil (contents r))
      ∙ take_last-all (length r.entries) (contents r) (omega (arith, held)))
    where
      held : length (contents r) ≡ r.count
      held = length-reads r.entries (start_of r r.count) 0 r.count
  push_all-contents r (e ∷ es) h =
      push_all-contents (push r e.at e.value) es (push-IsValid e.at e.value h)
      ∙ ap₂ (λ n l. take_last n (l ++ es)) (length-push r e.at e.value)
          (contents-push r e.at e.value h)
      ∙ take_last-append (length r.entries) (contents r ++ e ∷ []) es
      ∙ ap (take_last (length r.entries)) (append_assoc (contents r) (e ∷ []) es)

  -- After any sequence of pushes into a new buffer of positive capacity it holds just the last
  -- `capacity` of them, oldest first.
  pub contents-push_all :
      (capacity : ℕ) (es : List (Entry F))
      → 0 < capacity
      → contents (push_all (new_ring_buffer capacity) es) ≡ take_last capacity es
  unfolding new_ring_buffer
  contents-push_all capacity es h =
      let (valid, empty, cap) = new_ring_buffer-IsValid {F = F} capacity h in
      push_all-contents (new_ring_buffer capacity) es valid ∙ ap (λ n. take_last n es) cap
