-- ===== src/State/RingBuffer/Reads.antt =====
-- The entries that the loops of SumSince and Slice read, as a list.
use native.Mathlib.Nat.{mod-add-mod}
use crypto_divergence_engine.Prelude.{
  ℕ, zero, suc, ◌+◌, ◌%◌, ◌≡◌, refl, ◌∙◌, ap, ap₂, List, [], ◌∷◌, ◌++◌, arith, length, get_or,
}
use crypto_divergence_engine.Go.Float.{Float}
use crypto_divergence_engine.State.RingBuffer.{RingBuffer, Entry, entry_at, start_of, zero_entry}

shift-mod : (s i m : ℕ) → ((s + 1) % m + i) % m ≡ (s + (i + 1)) % m
shift-mod s i m = rw mod-add-mod (ap (λ k. k % m) (omega arith))

module _ {F : Type 0} ⦃fl : Float F⦄ where
  -- the `n` entries from round `i` on of a loop that starts at index `start`
  abbrev pub reads : List (Entry F) → ℕ → ℕ → ℕ → List (Entry F)
  reads es start i zero = []
  reads es start i (suc n) = entry_at es start i ∷ reads es start (i + 1) n

  -- what the buffer holds, oldest first
  abbrev pub contents : RingBuffer F → List (Entry F)
  contents r = reads r.entries (start_of r r.count) 0 r.count

  pub length-reads : (es : List (Entry F)) (s i n : ℕ) → length (reads es s i n) ≡ n
  length-reads es s i zero = refl
  length-reads es s i (suc n) = ap suc (length-reads es s (i + 1) n)

  pub reads-snoc :
      (es : List (Entry F)) (s i n : ℕ)
      → reads es s i (suc n) ≡ reads es s i n ++ entry_at es s (i + n) ∷ []
  reads-snoc es s i zero = ap (λ k. entry_at es s k ∷ []) (omega arith)
  reads-snoc es s i (suc n) =
      ap (λ l. entry_at es s i ∷ l)
        (reads-snoc es s (i + 1) n
          ∙ ap (λ k. reads es s (i + 1) n ++ entry_at es s k ∷ []) (omega arith))

  pub reads-shift :
      (es : List (Entry F)) (s i n : ℕ) → reads es ((s + 1) % length es) i n ≡ reads es s (i + 1) n
  reads-shift es s i zero = refl
  reads-shift es s i (suc n) =
      ap₂ ◌∷◌ (ap (λ k. get_or es k zero_entry) (shift-mod s i (length es)))
        (reads-shift es s (i + 1) n)
