-- ===== src/Go/Text/Digits.antt =====
-- Decimal printing, and texts without a colon.
use mathlib.Core.Path.{subst}
use crypto_divergence_engine.Prelude.{
  ℕ, zero, suc, ◌+◌, ◌-◌, ◌*◌, ◌/◌, ◌%◌, ◌≤◌, ◌<◌, ◌≡◌, ◌≢◌, refl, sym, ap, ap₂, ◌∙◌, [], ◌∷◌, ◌++◌,
  arith, ltb, ltb→lt, All, All-append, Bool-cases, inl, inr,
}
use crypto_divergence_engine.Prelude.Int.{ℤ, pos, negsuc}
use crypto_divergence_engine.Go.Text.{Str, digits, format_int}

abbrev pub IsDigit : ℕ → Type 0
IsDigit c = (b'0' ≤ c) × (c ≤ b'9')

digits-All : (fuel n : ℕ) → All IsDigit (digits fuel n)
unfolding digits
digits-All zero n = tt
digits-All (suc fuel) n = elim (Bool-cases (ltb n 10)) [
  | inl e ↦ let lt = ltb→lt n 10 e in rw e (omega arith)
  | inr e ↦ rw e (
      All-append IsDigit (digits fuel (n / 10)) ((b'0' + n % 10) ∷ []) (digits-All fuel (n / 10))
        (omega arith))
]

-- the number that the digits stand for, after `acc`
value_from : ℕ → Str → ℕ
value_from acc [] = acc
value_from acc (c ∷ s) = value_from (acc * 10 + (c - b'0')) s

value_from-snoc :
    (acc : ℕ) (s : Str) (c : ℕ) → value_from acc (s ++ c ∷ []) ≡ value_from acc s * 10 + (c - b'0')
unfolding value_from
value_from-snoc acc [] c = refl
value_from-snoc acc (x ∷ s) c = value_from-snoc (acc * 10 + (x - b'0')) s c

value_from-digits : (fuel n : ℕ) → n < fuel → value_from 0 (digits fuel n) ≡ n
unfolding digits value_from
value_from-digits zero n h = elim h [ ]
value_from-digits (suc fuel) n h = elim (Bool-cases (ltb n 10)) [
  | inl e ↦ rw e (omega arith)
  | inr e ↦
      rw (e, value_from-snoc 0 (digits fuel (n / 10)) (b'0' + n % 10))
        (omega (arith, value_from-digits fuel (n / 10) (ground arith)))
]

digits_injective : (m n : ℕ) → digits (suc m) m ≡ digits (suc n) n → m ≡ n
digits_injective m n e =
    sym (value_from-digits (suc m) m (omega arith))
    ∙ ap (value_from 0) e
    ∙ value_from-digits (suc n) n (omega arith)

not_minus : (n : ℕ) (s : Str) → digits (suc n) n ≢ b'-' ∷ s
not_minus n s e = let h = subst (All IsDigit) e (digits-All (suc n) n) in omega arith

suc_inj : {m n : ℕ} → suc m ≡ suc n → m ≡ n
suc_inj e = omega arith

tail-eq : {c e : ℕ} {s t : Str} → c ∷ s ≡ e ∷ t → s ≡ t
tail-eq h = cc

head-eq : {c e : ℕ} {s t : Str} → c ∷ s ≡ e ∷ t → c ≡ e
head-eq h = cc

-- %d prints different integers differently.
pub format_int_injective : (x y : ℤ) → format_int x ≡ format_int y → x ≡ y
unfolding format_int
format_int_injective (pos m) (pos n) e = ap pos (digits_injective m n e)
format_int_injective (pos m) (negsuc n) e = absurd (not_minus m (digits (suc (suc n)) (suc n)) e)
format_int_injective (negsuc m) (pos n) e =
    absurd (not_minus n (digits (suc (suc m)) (suc m)) (sym e))
format_int_injective (negsuc m) (negsuc n) e =
    ap negsuc (suc_inj (digits_injective (suc m) (suc n) (tail-eq e)))

abbrev pub NoColon : Str → Type 0
NoColon = All (λ c. c ≢ b':')

NoColon-of_digits : (s : Str) → All IsDigit s → NoColon s
NoColon-of_digits [] h = tt
NoColon-of_digits (c ∷ s) h = (λ e. omega arith, NoColon-of_digits s h.1)

pub format_int-NoColon : (x : ℤ) → NoColon (format_int x)
unfolding format_int
format_int-NoColon (pos n) = NoColon-of_digits (digits (suc n) n) (digits-All (suc n) n)
format_int-NoColon (negsuc n) = (
  λ e. omega arith,
  NoColon-of_digits (digits (suc (suc n)) (suc n)) (digits-All (suc (suc n)) (suc n)),
)

-- A text without a colon ends at the first colon, and one begins after the last.
pub first_colon :
    (d e r s : Str) → NoColon d → NoColon e → d ++ b':' ∷ r ≡ e ++ b':' ∷ s → (d ≡ e) × (r ≡ s)
first_colon [] [] r s hd he p = (refl, tail-eq p)
first_colon [] (y ∷ e) r s hd he p = absurd (he.0 (sym (head-eq p)))
first_colon (x ∷ d) [] r s hd he p = absurd (hd.0 (head-eq p))
first_colon (x ∷ d) (y ∷ e) r s hd he p =
    let (same, rest) = first_colon d e r s hd.1 he.1 (tail-eq p) in (ap₂ ◌∷◌ (head-eq p) same, rest)

colon_inside : (s n : Str) → ¬ NoColon (s ++ b':' ∷ n)
colon_inside [] n h = h.0 refl
colon_inside (x ∷ s) n h = colon_inside s n h.1

pub last_colon :
    (r s m n : Str) → NoColon m → NoColon n → r ++ b':' ∷ m ≡ s ++ b':' ∷ n → (r ≡ s) × (m ≡ n)
last_colon [] [] m n hm hn p = (refl, tail-eq p)
last_colon [] (y ∷ s) m n hm hn p = absurd (colon_inside s n (subst NoColon (tail-eq p) hm))
last_colon (x ∷ r) [] m n hm hn p = absurd (colon_inside r m (subst NoColon (sym (tail-eq p)) hn))
last_colon (x ∷ r) (y ∷ s) m n hm hn p =
    let (same, rest) = last_colon r s m n hm hn (tail-eq p) in (ap₂ ◌∷◌ (head-eq p) same, rest)
