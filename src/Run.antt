-- ===== src/Run.antt =====
-- How a call of C code can end: it returns, it touches memory that is not its own, or the loop
-- counter of the model (fuel) is used up before it returns.
use mathlib.Core.Path.{subst}
use nfcee_fw.Base.{◌≡◌, refl}

pub data Run {ℓ} (A : Type ℓ) : Type ℓ where
  returns : A → Run A
  fault out_of_fuel : Run A

infixl 5 ◌>>=◌
abbrev pub ◌>>=◌ {ℓ κ} : {A : Type ℓ} {B : Type κ} → Run A → (A → Run B) → Run B
returns a >>= f = f a
fault >>= f = fault
out_of_fuel >>= f = out_of_fuel

-- Whatever the call returns satisfies `P`; nothing is said of the other two ends.
abbrev pub Post {ℓ κ} : {A : Type ℓ} → (A → Type κ) → Run A → Type κ
Post P (returns a) = P a
Post P fault = Unit
Post P out_of_fuel = Unit

pub Post->>= {ℓ κ ρ σ} :
    {A : Type ℓ} {B : Type κ} (Q : A → Type ρ) (P : B → Type σ) (m : Run A) (f : A → Run B)
    → Post Q m
    → ((a : A) → Q a → Post P (f a))
    → Post P (m >>= f)
Post->>= Q P (returns a) f h k = k a h
Post->>= Q P fault f h k = tt
Post->>= Q P out_of_fuel f h k = tt

pub Post-returns {ℓ κ} :
    {A : Type ℓ} (P : A → Type κ) (m : Run A) {a : A} → Post P m → m ≡ returns a → P a
Post-returns P m h e = subst (Post P) e h

pub Post-map {ℓ κ ρ} :
    {A : Type ℓ} (P : A → Type κ) (Q : A → Type ρ) (m : Run A)
    → ((a : A) → P a → Q a)
    → Post P m
    → Post Q m
Post-map P Q (returns a) f h = f a h
Post-map P Q fault f h = tt
Post-map P Q out_of_fuel f h = tt

-- A rest that satisfies `P` from wherever it starts.
pub Post-bind {ℓ κ σ} :
    {A : Type ℓ} {B : Type κ} (P : B → Type σ) (m : Run A) (f : A → Run B)
    → ((a : A) → Post P (f a))
    → Post P (m >>= f)
Post-bind P (returns a) f k = k a
Post-bind P fault f k = tt
Post-bind P out_of_fuel f k = tt

-- The call returns, and what it returns satisfies `P`.
abbrev pub Must {ℓ} : {A : Type ℓ} → (A → Type 0) → Run A → Type 0
Must P (returns a) = P a
Must P fault = ⊥
Must P out_of_fuel = ⊥

pub Must->>= {ℓ κ} :
    {A : Type ℓ} {B : Type κ} (Q : A → Type 0) (P : B → Type 0) (m : Run A) (f : A → Run B)
    → Must Q m
    → ((a : A) → Q a → Must P (f a))
    → Must P (m >>= f)
Must->>= Q P (returns a) f h k = k a h
Must->>= Q P fault f h k = absurd h
Must->>= Q P out_of_fuel f h k = absurd h

pub Must-map {ℓ} :
    {A : Type ℓ} (P Q : A → Type 0) (m : Run A) → ((a : A) → P a → Q a) → Must P m → Must Q m
Must-map P Q (returns a) f h = f a h
Must-map P Q fault f h = h
Must-map P Q out_of_fuel f h = h

pub Post-both {ℓ κ ρ} :
    {A : Type ℓ} (P : A → Type κ) (Q : A → Type ρ) (m : Run A)
    → Post P m
    → Post Q m
    → Post (λ a. P a × Q a) m
Post-both P Q (returns a) p q = (p, q)
Post-both P Q fault p q = tt
Post-both P Q out_of_fuel p q = tt

-- The loop counters of the model suffice: the call returns something that satisfies `P`, or touches
-- memory that is not its own.
abbrev pub Halts {ℓ} : {A : Type ℓ} → (A → Type 0) → Run A → Type 0
Halts P (returns a) = P a
Halts P fault = Unit
Halts P out_of_fuel = ⊥

pub Halts->>= {ℓ κ} :
    {A : Type ℓ} {B : Type κ} (Q : A → Type 0) (P : B → Type 0) (m : Run A) (f : A → Run B)
    → Halts Q m
    → ((a : A) → Q a → Halts P (f a))
    → Halts P (m >>= f)
Halts->>= Q P (returns a) f h k = k a h
Halts->>= Q P fault f h k = tt
Halts->>= Q P out_of_fuel f h k = absurd h

pub Halts-Post {ℓ} :
    {A : Type ℓ} (P : A → Type 0) (m : Run A) → Halts (λ a. Unit) m → Post P m → Halts P m
Halts-Post P (returns a) h p = p
Halts-Post P fault h p = tt
Halts-Post P out_of_fuel h p = h

pub Must-Post {ℓ} :
    {A : Type ℓ} (P Q : A → Type 0) (m : Run A) → Must P m → Post Q m → Must (λ a. P a × Q a) m
Must-Post P Q (returns a) h k = (h, k)
Must-Post P Q fault h k = h
Must-Post P Q out_of_fuel h k = h

-- What a call that returns has returned.
pub Must-use {ℓ κ} :
    {A : Type ℓ} {R : Type κ} (P : A → Type 0) (m : Run A)
    → Must P m
    → ((a : A) → m ≡ returns a → P a → R)
    → R
Must-use P (returns a) h k = k a refl h
Must-use P fault h k = absurd h
Must-use P out_of_fuel h k = absurd h
