-- ===== src/Go/Checked.antt =====
-- Code that may panic: `none` stands for the panic. A read of a slice is checked.
use crypto_divergence_engine.Prelude.{
  ℕ, zero, suc, ◌+◌, ◌-◌, ◌^◌, ◌<◌, ◌≡◌, refl, ap, ◌∙◌, sym, Option, none, some, List, [], ◌∷◌,
  ◌++◌, arith, length, get_elem?, if◌then◌else◌, ltb, Bool, true, false,
}
use crypto_divergence_engine.Prelude.Int.{ℤ, pos, negsuc}

infixl 5 ◌>>=◌ ◌>>◌
abbrev pub ◌>>=◌ {ℓ κ} : {A : Type ℓ} {B : Type κ} → Option A → (A → Option B) → Option B
some a >>= f = f a
none >>= f = none

abbrev pub ◌>>◌ {ℓ} : {B : Type ℓ} → Option (Unit {0}) → Option B → Option B
m >> k = m >>= λ _. k

-- The code returns, and what it returns satisfies P.
pub data Returns {A : Type 0} (P : A → Type 0) : Option A → Type 0 where
  returns : {a : A} → P a → Returns P (some a)

-- If the code returns, what it returns satisfies P.
abbrev pub IfReturns : {A : Type 0} → (A → Type 0) → Option A → Type 0
IfReturns P none = Unit
IfReturns P (some a) = P a

pub bind-IfReturns :
    {A B : Type 0} (P : A → Type 0) (Q : B → Type 0) (m : Option A) (f : A → Option B)
    → IfReturns P m
    → ((a : A) → P a → IfReturns Q (f a))
    → IfReturns Q (m >>= f)
bind-IfReturns P Q none f p k = tt
bind-IfReturns P Q (some a) f p k = k a p

pub IfReturns-weaken :
    {A : Type 0} (P Q : A → Type 0) (m : Option A)
    → IfReturns P m
    → ((a : A) → P a → Q a)
    → IfReturns Q m
IfReturns-weaken P Q none p k = tt
IfReturns-weaken P Q (some a) p k = k a p

pub IfReturns-self : {A : Type 0} → (m : Option A) → IfReturns (λ a. m ≡ some a) m
IfReturns-self none = tt
IfReturns-self (some a) = refl

pub if-IfReturns :
    {A : Type 0} (P : A → Type 0) (p : Bool) (m k : Option A)
    → IfReturns P m
    → IfReturns P k
    → IfReturns P (if p then m else k)
if-IfReturns P true m k a b = a
if-IfReturns P false m k a b = b

pub bind-same :
    {A B : Type 0} (m n : Option A) (f g : A → Option B)
    → m ≡ n
    → ((a : A) → f a ≡ g a)
    → m >>= f ≡ n >>= g
bind-same m none f g e h = ap (λ o. o >>= f) e
bind-same m (some a) f g e h = ap (λ o. o >>= f) e ∙ h a

pub bind_assoc :
    {A B C : Type 0} (m : Option A) (f : A → Option B) (g : B → Option C)
    → m >>= f >>= g ≡ m >>= (λ a. f a >>= g)
bind_assoc none f g = refl
bind_assoc (some a) f g = refl

module _ {A : Type 0} where
  pub bind-Returns :
      {B : Type 0} {P : A → Type 0} {Q : B → Type 0} {m : Option A} {f : A → Option B}
      → Returns P m
      → ((a : A) → P a → Returns Q (f a))
      → Returns Q (m >>= f)
  bind-Returns (returns p) k = k _ p

  pub Returns-weaken :
      {P Q : A → Type 0} {m : Option A} → Returns P m → ((a : A) → P a → Q a) → Returns Q m
  Returns-weaken (returns p) k = returns (k _ p)

  pub Returns-some : {P : A → Type 0} {m : Option A} → Returns P m → (a : A) × (m ≡ some a) × P a
  Returns-some (returns {a = a} p) = (a, refl, p)

  pub if-Returns :
      {P : A → Type 0} (p : Bool) {m k : Option A}
      → (p ≡ true → Returns P m)
      → (p ≡ false → Returns P k)
      → Returns P (if p then m else k)
  if-Returns true a b = a refl
  if-Returns false a b = b refl

  -- xs[i]
  abbrev pub at : List A → ℕ → Option A
  at xs i = get_elem? xs i

  pub at-Returns :
      (xs : List A) (i : ℕ)
      → i < length xs
      → Returns (λ x. get_elem? xs i ≡ some x) (get_elem? xs i)
  at-Returns [] i lt = absurd (omega arith)
  at-Returns (x ∷ xs) zero lt = returns refl
  at-Returns (x ∷ xs) (suc i) lt = at-Returns xs i (omega arith)

  pub at-append : (xs ys : List A) (i : ℕ) → i < length xs → get_elem? (xs ++ ys) i ≡ get_elem? xs i
  at-append [] ys i lt = absurd (omega arith)
  at-append (x ∷ xs) ys zero lt = refl
  at-append (x ∷ xs) ys (suc i) lt = at-append xs ys i (omega arith)

  pub at-append_right :
      (xs ys : List A) (i j : ℕ) → length xs + i ≡ j → get_elem? (xs ++ ys) j ≡ get_elem? ys i
  at-append_right [] ys i j e = ap (get_elem? ys) (omega (arith, e))
  at-append_right (x ∷ xs) ys i zero e = absurd (omega (arith, e))
  at-append_right (x ∷ xs) ys i (suc j) e = at-append_right xs ys i j (omega (arith, e))

  -- the cells from i on, `count` of them, each computed from its index
  unfoldable pub fill : (ℕ → Option A) → ℕ → ℕ → Option (List A)
  fill f i zero = some []
  fill f i (suc count) = do x ← f i; rest ← fill f (i + 1) count; some (x ∷ rest)

pub at-fill :
    {A : Type 0} (f : ℕ → Option A) (i count : ℕ)
    → IfReturns (λ xs. (k : ℕ) → k < count → get_elem? xs k ≡ f (i + k)) (fill f i count)
unfolding fill
at-fill f i zero = λ k lt. absurd (omega arith)
at-fill {A = A} f i (suc count) =
    bind-IfReturns (λ x. f i ≡ some x) P (f i)
      (λ x. do rest ← fill f (i + 1) count; some (x ∷ rest)) (IfReturns-self (f i))
      λ x e.
        bind-IfReturns (λ xs. (k : ℕ) → k < count → get_elem? xs k ≡ f (i + 1 + k)) P
          (fill f (i + 1) count) (λ rest. some (x ∷ rest)) (at-fill f (i + 1) count)
          λ rest cells. λ k lt. cell x rest e cells k lt
  where
    P : List A → Type 0
    P xs = (k : ℕ) → k < suc count → get_elem? xs k ≡ f (i + k)

    cell :
        (x : A) (rest : List A)
        → f i ≡ some x
        → ((k : ℕ) → k < count → get_elem? rest k ≡ f (i + 1 + k))
        → (k : ℕ) → k < suc count
        → get_elem? (x ∷ rest) k ≡ f (i + k)
    cell x rest e cells zero lt = sym e ∙ ap f (omega arith)
    cell x rest e cells (suc k) lt = cells k (omega arith) ∙ ap f (omega arith)

-- a + b of two ints that are not negative
unfoldable pub add_int : ℕ → ℕ → ℤ
add_int a b = if ltb (a + b) (2 ^ 63) then pos (a + b) else negsuc (2 ^ 64 - (a + b) - 1)

-- xs[i] for an int
abbrev pub at_int : {A : Type 0} → List A → ℤ → Option A
at_int xs (pos i) = get_elem? xs i
at_int xs (negsuc i) = none

pub add_int-eq-pos : (a b : ℕ) → a + b < 2 ^ 63 → add_int a b ≡ pos (a + b)
unfolding add_int
add_int-eq-pos a b lt = ground arith
