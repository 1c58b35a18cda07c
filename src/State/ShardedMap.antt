-- ===== src/State/ShardedMap.antt =====
-- internal/state/shardedmap.go: a map split across 16 shards by a hash of the key. The values of the
-- program are pointers, each held by one map entry only, so `use` gives the callback the value and
-- stores what the callback makes of it; the callback also returns what its closure collects. Each
-- call runs under the shard's lock, so the calls on one key are a sequence.
pub mod Laws
use Prim.Native.Nat.{bit_xor}
use crypto_divergence_engine.Prelude.{
  ℕ, ◌+◌, ◌*◌, ◌%◌, ◌^◌, ◌<◌, ◌≡◌, Option, none, some, List, [], ◌∷◌, arith, get_or, set, replicate,
}
use crypto_divergence_engine.Go.Text.{Str}
use crypto_divergence_engine.Go.Map.{Map, lookup, insert}

abbrev pub num_shards : ℕ
num_shards = 16

-- The loop of fnv32 over the bytes that are left, with h a uint32.
unfoldable pub fnv32_loop : Str → ℕ → ℕ
fnv32_loop [] h = h
fnv32_loop (b ∷ s) h = fnv32_loop s (bit_xor h b * 16_777_619 % 2 ^ 32)

unfoldable pub fnv32 : Str → ℕ
unfolding fnv32_loop
fnv32 s = fnv32_loop s 2_166_136_261

pub record ShardedMap (V : Type 0) : Type 0 where
  -- a shard's nil map is the empty list
  pub shards : List (Map V)

-- the index of the shard of a key
unfoldable pub shard_of : Str → ℕ
shard_of key = fnv32 key % num_shards

module _ {V : Type 0} where
  -- Go's zero value of the map
  abbrev pub empty : ShardedMap V
  empty = record { shards = replicate num_shards [] }

  -- m.shards[fnv32(key)%numShards].data
  abbrev pub shard_data : ShardedMap V → Str → Map V
  shard_data m key = get_or m.shards (shard_of key) []

  -- the value before the callback: the one stored, or a new one
  abbrev pub found_or : Option V → V → V
  found_or (some v) created = v
  found_or none created = created

  -- Use(key, create, fn)
  unfoldable pub use_value : {R : Type 0} → ShardedMap V → Str → V → (V → V × R) → ShardedMap V × R
  use_value m key created fn =
      let s = shard_data m key in
      let (v', result) = fn (found_or (lookup key s) created) in
      (record { shards = set m.shards (shard_of key) (insert key v' s) }, result)
