-- ===== src/Go/Channel.antt =====
-- A buffered channel that is sent to by `select { case ch <- x: default: }`: a full channel drops the
-- value, so the sender never waits. What the channel holds is a list, oldest first.
use crypto_divergence_engine.Prelude.{
  ℕ, ◌≤◌, List, [], ◌∷◌, ◌++◌, arith, ltb, if◌then◌else◌, length, length-append, append_assoc,
  append-nil, Bool-cases, inl, inr,
}
use mathlib.Core.Path.{subst}

-- The first list is the second with some elements left out.
pub data Thins {ℓ} {A : Type ℓ} : List A → List A → Type ℓ where
  done : Thins [] []
  keep : {xs ys : List A} (x : A) → Thins xs ys → Thins (x ∷ xs) (x ∷ ys)
  skip : {xs ys : List A} (x : A) → Thins xs ys → Thins xs (x ∷ ys)

module _ {ℓ} {A : Type ℓ} where
  pub Thins-append :
      {xs ys us vs : List A} → Thins xs ys → Thins us vs → Thins (xs ++ us) (ys ++ vs)
  Thins-append done k = k
  Thins-append (keep x h) k = keep x (Thins-append h k)
  Thins-append (skip x h) k = skip x (Thins-append h k)

  pub nothing : (ys : List A) → Thins [] ys
  nothing [] = done
  nothing (y ∷ ys) = skip y (nothing ys)

  Thins-refl : (xs : List A) → Thins xs xs
  Thins-refl [] = done
  Thins-refl (x ∷ xs) = keep x (Thins-refl xs)

  Thins-trans : {ys zs : List A} → Thins ys zs → {xs : List A} → Thins xs ys → Thins xs zs
  Thins-trans done h = h
  Thins-trans (skip y k) h = skip y (Thins-trans k h)
  Thins-trans (keep y k) (keep _ h) = keep y (Thins-trans k h)
  Thins-trans (keep y k) (skip _ h) = skip y (Thins-trans k h)

  pub Thins-prefix : (xs ys : List A) {zs : List A} → Thins (xs ++ ys) zs → Thins xs zs
  Thins-prefix xs ys h =
      Thins-trans h (
        subst (λ l. Thins l (xs ++ ys)) (append-nil xs) (Thins-append (Thins-refl xs) (nothing ys)))

  -- select { case ch <- x: default: } on a channel of the capacity
  unfoldable pub offer : ℕ → A → List A → List A
  offer cap x ch = if ltb (length ch) cap then ch ++ x ∷ [] else ch

  pub length-offer :
      (cap : ℕ) (x : A) (ch : List A) → length ch ≤ cap → length (offer cap x ch) ≤ cap
  unfolding offer
  length-offer cap x ch h = ground (arith, length-append {ℓ} ch (x ∷ []))

  -- One more value sent, and at most that one more held, at the end.
  pub Thins-offer :
      (cap : ℕ) (x : A) (taken ch sent : List A)
      → Thins (taken ++ ch) sent
      → Thins (taken ++ offer cap x ch) (sent ++ x ∷ [])
  unfolding offer
  Thins-offer cap x taken ch sent h = elim (Bool-cases (ltb (length ch) cap)) [
    | inl room ↦ rw room (
        subst (λ l. Thins l (sent ++ x ∷ [])) (append_assoc taken ch (x ∷ []))
          (Thins-append h (keep x done)))
    | inr full ↦ rw full (
        subst (λ l. Thins l (sent ++ x ∷ [])) (append-nil (taken ++ ch))
          (Thins-append h (skip x done)))
  ]
