-- ===== src/State/ShardedMap/Laws.antt =====
-- internal/state/shardedmap.go: the shards as one map from keys to values.
use crypto_divergence_engine.Prelude.{
  ℕ, ◌+◌, ◌*◌, ◌%◌, ◌^◌, ◌<◌, ◌≡◌, ◌≢◌, refl, sym, ap, ◌∙◌, true, false, Option, none, some, List,
  [], ◌∷◌, arith, get_or, set, replicate, length, length-set, get_or-set_self, get_or-set_ne,
  if◌then◌else◌, Bool-cases, inl, inr, zero, suc, ◌⊎◌,
}
use Prim.Native.Nat.{bit_xor}
use mathlib.Core.Path.{subst}
use native.Mathlib.Nat.{add-zero, zero-add}
use native.Mathlib.Decide.{ℕ_discrete}
use crypto_divergence_engine.Go.Text.{Str, str_eq, str_eq_iff}
use crypto_divergence_engine.Go.Map.{Map, lookup, insert, lookup-insert}
use crypto_divergence_engine.State.ShardedMap.{
  ShardedMap, empty, use_value, shard_of, shard_data, found_or, num_shards, fnv32, fnv32_loop,
}

-- The hash stays a uint32, whatever the bytes.
pub fnv32-lt : (s : Str) → fnv32 s < 2 ^ 32
unfolding fnv32
fnv32-lt s = loop s 2_166_136_261 (omega arith)
  where
    loop : (s : Str) (h : ℕ) → h < 2 ^ 32 → fnv32_loop s h < 2 ^ 32
    loop [] h lt = lt
    loop (b ∷ s) h lt = loop s (bit_xor h b * 16_777_619 % 2 ^ 32) (omega arith)

pub shard_of-lt : (key : Str) → shard_of key < num_shards
unfolding shard_of
shard_of-lt key = omega arith

-- Every key stands in the shard of its hash.
abbrev pub InShard : {V : Type 0} → ℕ → Map V → Type 0
InShard i [] = Unit
InShard i ((k, v) ∷ m) = (shard_of k ≡ i) × InShard i m

abbrev pub InShards : {V : Type 0} → ℕ → List (Map V) → Type 0
InShards i [] = Unit
InShards i (m ∷ ms) = InShard i m × InShards (suc i) ms

pub record IsValid {V : Type 0} (m : ShardedMap V) : Type 0 where
  pub all_shards : length m.shards ≡ num_shards
  pub placed : InShards 0 m.shards

module _ {V : Type 0} where
  -- the one map that the shards stand for
  abbrev pub find : ShardedMap V → Str → Option V
  find m key = lookup key (shard_data m key)

  pub empty-IsValid : IsValid (empty {V = V})
  empty-IsValid = ground arith

  pub find-empty : (key : Str) → find (empty {V = V}) key ≡ none
  unfolding lookup
  find-empty key = ap (lookup key) (nothing num_shards (shard_of key))
    where
      nothing : (n i : ℕ) → get_or (replicate {A = Map V} n []) i [] ≡ []
      nothing zero i = refl
      nothing (suc n) zero = refl
      nothing (suc n) (suc i) = nothing n i

  insert-InShard :
      (i : ℕ) (k : Str) (v : V) (m : Map V)
      → shard_of k ≡ i
      → InShard i m
      → InShard i (insert k v m)
  unfolding insert
  insert-InShard i k v [] e h = ground arith
  insert-InShard i k v ((j, w) ∷ m) e h = ground (arith, insert-InShard i k v m e h.1)

  get_or-InShard : (i j : ℕ) (ms : List (Map V)) → InShards i ms → InShard (i + j) (get_or ms j [])
  get_or-InShard i j [] h = tt
  get_or-InShard i zero (m ∷ ms) h = rw add-zero h.0
  get_or-InShard i (suc j) (m ∷ ms) h =
      subst (λ k. InShard k (get_or ms j [])) {x = suc i + j} (omega arith)
        (get_or-InShard (suc i) j ms h.1)

  set-InShards :
      (i j : ℕ) (ms : List (Map V)) (m : Map V)
      → InShards i ms
      → InShard (i + j) m
      → InShards i (set ms j m)
  set-InShards i j [] m h k = tt
  set-InShards i zero (_ ∷ ms) m h k = (rw add-zero at k, h.1)
  set-InShards i (suc j) (_ ∷ ms) m h k = (
    h.0,
    set-InShards (suc i) j ms m h.1 (subst (λ n. InShard n m) {x = i + suc j} (omega arith) k),
  )

  -- Use on a valid map keeps the number of shards, and every key in the shard of its hash.
  pub use_value-IsValid :
      {R : Type 0} {m : ShardedMap V} (key : Str) (created : V) (fn : V → V × R)
      → IsValid m
      → IsValid (use_value m key created fn).0
  unfolding use_value
  use_value-IsValid {m = m} key created fn h = record {
    all_shards = length-set m.shards (shard_of key) s' ∙ h.all_shards;
    placed = set-InShards 0 (shard_of key) m.shards s' h.placed (
        rw zero-add (
          insert-InShard (shard_of key) key v' (shard_data m key) refl
            (rw zero-add at (get_or-InShard 0 (shard_of key) m.shards h.placed))));
  }
    where
      v' : V
      v' = (fn (found_or (lookup key (shard_data m key)) created)).0

      s' : Map V
      s' = insert key v' (shard_data m key)

  -- Use on a valid map gives the callback the value under the key, or the created one where there
  -- is none, stores what the callback makes of it, and leaves every other key as it was.
  pub find-use_value :
      {R : Type 0} {m : ShardedMap V} (key j : Str) (created : V) (fn : V → V × R)
      → IsValid m
      → find (use_value m key created fn).0 j
        ≡ (if str_eq key j then some (fn (found_or (find m key) created)).0 else find m j)
  unfolding use_value
  find-use_value {m = m} key j created fn h = elim (ℕ_discrete (shard_of key) (shard_of j)) [
    | yes same ↦
        ap (lookup j) (
          ap (λ i. get_or (set m.shards i s') (shard_of j) []) same
          ∙ get_or-set_self m.shards (shard_of j) s' [] (in_range j))
        ∙ lookup-insert key j v' (shard_data m key)
        ∙ ap (λ i. if str_eq key j then some v' else lookup j (get_or m.shards i [])) same
    | no other ↦
        ap (lookup j) (get_or-set_ne m.shards s' [] other)
        ∙ sym (elsewhere other (Bool-cases (str_eq key j)))
  ]
    where
      v' : V
      v' = (fn (found_or (lookup key (shard_data m key)) created)).0

      s' : Map V
      s' = insert key v' (shard_data m key)

      in_range : (k : Str) → shard_of k < length m.shards
      in_range k = omega (arith, shard_of-lt k, h.all_shards)

      elsewhere :
          shard_of key ≢ shard_of j
          → (str_eq key j ≡ true) ⊎ (str_eq key j ≡ false)
          → (if str_eq key j then some v' else find m j) ≡ find m j
      elsewhere other (inl e) = absurd (other (ap shard_of ((str_eq_iff key j).0 e)))
      elsewhere other (inr e) = rw e

  -- The result is the callback's.
  pub use_value-result :
      {R : Type 0} (m : ShardedMap V) (key : Str) (created : V) (fn : V → V × R)
      → (use_value m key created fn).1 ≡ (fn (found_or (find m key) created)).1
  unfolding use_value
  use_value-result m key created fn = refl
