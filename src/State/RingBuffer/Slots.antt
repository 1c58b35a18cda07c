-- ===== src/State/RingBuffer/Slots.antt =====
-- The arithmetic of the slots of a circular buffer.
use native.Mathlib.Nat.{mod-eq_of_lt, mod-eq-sub-mod}
use native.Mathlib.Decide.{dec_lt}
use crypto_divergence_engine.Prelude.{
  ℕ, ◌+◌, ◌-◌, ◌%◌, ◌≤◌, ◌<◌, ◌≡◌, ◌≢◌, ◌⊎◌, inl, inr, arith, if◌then◌else◌, ltb, Bool-cases,
}

-- Steps `k` and `n` of a walk round `m` slots stand on different slots if they are less than a
-- whole round apart.
pub mod-add-ne : (s k n m : ℕ) → k < n → n < k + m → (s + k) % m ≢ (s + n) % m
mod-add-ne s k n m hk hn = λ e. grind arith

-- the index of the n-th newest of `m` slots, with `h` the next to be written
abbrev pub begin : ℕ → ℕ → ℕ → ℕ
begin h m n = if ltb h n then h + m - n else h - n

next-cases :
    (h m : ℕ) → h < m → ((h + 1) % m ≡ h + 1) × (h + 1 < m) ⊎ ((h + 1) % m ≡ 0) × (h + 1 ≡ m)
next-cases h m k = elim (dec_lt (h + 1) m) [
  | yes p ↦ inl (mod-eq_of_lt p, p)
  | no p ↦ inr (grind arith, omega arith)
]

pub begin_room : (h c m : ℕ) → h < m → c < m → begin ((h + 1) % m) m (c + 1) ≡ begin h m c
begin_room h c m k l = ground (arith, next-cases h m k)

pub begin_full : (h m : ℕ) → h < m → begin ((h + 1) % m) m m ≡ (h + 1) % m
begin_full h m k = ground (arith, next-cases h m k)

-- From the beginning, `c` steps lead to the slot that is written next.
pub begin-add-mod : (h c m : ℕ) → h < m → c ≤ m → (begin h m c + c) % m ≡ h
begin-add-mod h c m k l = elim (Bool-cases (ltb h c)) [
  | inl e ↦ rw e (grind arith)
  | inr e ↦ rw e (grind arith)
]

pub begin_skip : (h j n m : ℕ) → h < m → j + n ≤ m → begin h m n ≡ (begin h m (j + n) + j) % m
begin_skip h j n m k l = grind (arith, mod-eq_of_lt, mod-eq-sub-mod)
