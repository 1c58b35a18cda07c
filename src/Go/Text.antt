-- ===== src/Go/Text.antt =====
-- Go strings as lists of bytes, with the functions of fmt and strings that the code calls.
pub mod Digits
use Prim.Native.Char.{code}
use Prim.Native.String.{String}
use crypto_divergence_engine.Prelude.{
  ℕ, zero, suc, ◌+◌, ◌-◌, ◌/◌, ◌%◌, ◌<◌, ◌≤◌, ◌≡◌, refl, ◌↔◌, Bool, true, false, ◌&&◌, List, [],
  ◌∷◌, ◌++◌, arith, ltb, leb, ◌==◌, if◌then◌else◌, length, take, drop, map,
}
use crypto_divergence_engine.Prelude.Int.{ℤ, pos, negsuc}

abbrev pub Str : Type 0
Str = List ℕ

-- The bytes of an ASCII literal.
abbrev pub bytes : String → Str
bytes String.[] = []
bytes (String.◌∷◌ c s) = code c ∷ bytes s

-- s == t
unfoldable pub str_eq : Str → Str → Bool
str_eq [] [] = true
str_eq [] (b ∷ t) = false
str_eq (a ∷ s) [] = false
str_eq (a ∷ s) (b ∷ t) = (a == b) && str_eq s t

pub str_eq_iff : (s t : Str) → (str_eq s t ≡ true) ↔ (s ≡ t)
unfolding str_eq
str_eq_iff [] [] = ground arith
str_eq_iff [] (b ∷ t) = ground arith
str_eq_iff (a ∷ s) [] = ground arith
str_eq_iff (a ∷ s) (b ∷ t) = ground (arith, str_eq_iff s t)

pub str_eq_refl : (s : Str) → str_eq s s ≡ true
str_eq_refl s = (str_eq_iff s s).1 refl

-- fmt's %d of a number that is not negative; `fuel` bounds the number of digits.
unfoldable pub digits : ℕ → ℕ → Str
digits zero n = []
digits (suc fuel) n =
    let rest = digits fuel (n / 10) in
    if ltb n 10 then (b'0' + n) ∷ [] else rest ++ ((b'0' + n % 10) ∷ [])

-- fmt's %d
unfoldable pub format_int : ℤ → Str
unfolding digits
format_int (pos n) = digits (suc n) n
format_int (negsuc n) = b'-' ∷ digits (suc (suc n)) (suc n)

unfoldable pub is_ascii : Str → Bool
is_ascii [] = true
is_ascii (c ∷ s) = ltb c 128 && is_ascii s

-- strings.ToUpper and strings.ToLower of a text with a byte beyond ASCII, which read Unicode's tables
pub record Unicode : Type 0 where
  pub upper : Str → Str
  pub lower : Str → Str

unfoldable pub upper_byte : ℕ → ℕ
upper_byte c = if leb b'a' c && leb c b'z' then c - 32 else c

unfoldable pub lower_byte : ℕ → ℕ
lower_byte c = if leb b'A' c && leb c b'Z' then c + 32 else c

module _ ⦃uni : Unicode⦄ where
  unfoldable pub to_upper : Str → Str
  to_upper s = if is_ascii s then map upper_byte s else uni.upper s

  unfoldable pub to_lower : Str → Str
  to_lower s = if is_ascii s then map lower_byte s else uni.lower s

-- strings.HasSuffix(s, q)
unfoldable pub has_suffix : Str → Str → Bool
unfolding str_eq
has_suffix s q = leb (length q) (length s) && str_eq (drop (length s - length q) s) q
