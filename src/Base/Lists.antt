-- ===== src/Base/Lists.antt =====
-- Byte buffers as lists, measured and indexed by native numbers, under the library's names.
use Prim.Native.Nat.{ℕ, zero, suc, ◌+◌, ◌-◌, ◌≤◌, min}
use mathlib.Core.Path.{◌≡◌, refl, sym, ap}
use native.Mathlib.Nat.{sub-zero, suc-sub-suc, min-zero, zero-min, suc-min-suc}
use mathlib.Core.List.{List, [], ◌∷◌, ◌++◌}
use mathlib.Core.Option.{Option, none, some}
use native.Mathlib.Omega.{arith}

module _ {ℓ} {A : Type ℓ} where
  abbrev pub length : List A → ℕ
  length [] = 0
  length (x ∷ xs) = suc (length xs)

  abbrev pub get_elem? : List A → ℕ → Option A
  get_elem? [] i = none
  get_elem? (x ∷ xs) zero = some x
  get_elem? (x ∷ xs) (suc i) = get_elem? xs i

  abbrev pub get_or : List A → ℕ → A → A
  get_or [] i d = d
  get_or (x ∷ xs) zero d = x
  get_or (x ∷ xs) (suc i) d = get_or xs i d

  -- A write out of bounds changes nothing.
  abbrev pub set : List A → ℕ → A → List A
  set [] i v = []
  set (x ∷ xs) zero v = v ∷ xs
  set (x ∷ xs) (suc i) v = x ∷ set xs i v

  abbrev pub take : ℕ → List A → List A
  take zero xs = []
  take (suc n) [] = []
  take (suc n) (x ∷ xs) = x ∷ take n xs

  abbrev pub drop : ℕ → List A → List A
  drop zero xs = xs
  drop (suc n) [] = []
  drop (suc n) (x ∷ xs) = drop n xs

  -- `memcpy` of `ys` over the front of `xs`; what lies behind the end of `xs` is lost.
  abbrev pub overlay : List A → List A → List A
  overlay [] ys = []
  overlay (x ∷ xs) [] = x ∷ xs
  overlay (x ∷ xs) (y ∷ ys) = y ∷ overlay xs ys

  -- `memcpy(xs + i, ys, …)`.
  abbrev pub overlay_at : ℕ → List A → List A → List A
  overlay_at zero xs ys = overlay xs ys
  overlay_at (suc i) [] ys = []
  overlay_at (suc i) (x ∷ xs) ys = x ∷ overlay_at i xs ys

  pub length-append : (xs ys : List A) → length (xs ++ ys) ≡ length xs + length ys
  length-append [] ys = omega arith
  length-append (x ∷ xs) ys = omega (arith, length-append xs ys)

module _ {ℓ} {A : Type ℓ} where
  pub length-set : (xs : List A) (i : ℕ) (v : A) → length (set xs i v) ≡ length xs
  length-set [] i v = refl
  length-set (x ∷ xs) zero v = refl
  length-set (x ∷ xs) (suc i) v = ap suc (length-set xs i v)

  pub take-append-drop : (n : ℕ) (xs : List A) → take n xs ++ drop n xs ≡ xs
  take-append-drop zero xs = refl
  take-append-drop (suc n) [] = refl
  take-append-drop (suc n) (x ∷ xs) = rw (take-append-drop n xs)

  pub length-take : (n : ℕ) (xs : List A) → length (take n xs) ≡ min n (length xs)
  length-take zero xs = omega arith
  length-take (suc n) [] = omega arith
  length-take (suc n) (x ∷ xs) = omega (arith, length-take n xs)

  pub length-drop : (n : ℕ) (xs : List A) → length (drop n xs) ≡ length xs - n
  length-drop zero xs = omega arith
  length-drop (suc n) [] = omega arith
  length-drop (suc n) (x ∷ xs) = omega (arith, length-drop n xs)

  pub length-overlay : (xs ys : List A) → length (overlay xs ys) ≡ length xs
  length-overlay [] ys = refl
  length-overlay (x ∷ xs) [] = refl
  length-overlay (x ∷ xs) (y ∷ ys) = ap suc (length-overlay xs ys)

  pub length-overlay_at : (i : ℕ) (xs ys : List A) → length (overlay_at i xs ys) ≡ length xs
  length-overlay_at zero xs ys = length-overlay xs ys
  length-overlay_at (suc i) [] ys = refl
  length-overlay_at (suc i) (x ∷ xs) ys = ap suc (length-overlay_at i xs ys)

  pub overlay-nil : (xs : List A) → overlay xs [] ≡ xs
  overlay-nil [] = refl
  overlay-nil (x ∷ xs) = refl

  -- What was copied to the front is read back.
  pub take-overlay :
      (xs ys : List A) → length ys ≤ length xs → take (length ys) (overlay xs ys) ≡ ys
  take-overlay [] [] h = refl
  take-overlay [] (y ∷ ys) h = absurd (omega arith)
  take-overlay (x ∷ xs) [] h = refl
  take-overlay (x ∷ xs) (y ∷ ys) h = ap (λ l. y ∷ l) (take-overlay xs ys (omega arith))

  pub take-append_left : (xs ys : List A) → take (length xs) (xs ++ ys) ≡ xs
  take-append_left [] ys = refl
  take-append_left (x ∷ xs) ys = ap (λ l. x ∷ l) (take-append_left xs ys)

  pub drop-append_left : (xs ys : List A) → drop (length xs) (xs ++ ys) ≡ ys
  drop-append_left [] ys = refl
  drop-append_left (x ∷ xs) ys = drop-append_left xs ys

  pub take-of_le : (n : ℕ) (xs : List A) → length xs ≤ n → take n xs ≡ xs
  take-of_le zero [] h = refl
  take-of_le zero (x ∷ xs) h = absurd (omega arith)
  take-of_le (suc n) [] h = refl
  take-of_le (suc n) (x ∷ xs) h = ap (λ l. x ∷ l) (take-of_le n xs (omega arith))

  pub drop-of_le : (n : ℕ) (xs : List A) → length xs ≤ n → drop n xs ≡ []
  drop-of_le zero [] h = refl
  drop-of_le zero (x ∷ xs) h = absurd (omega arith)
  drop-of_le (suc n) [] h = refl
  drop-of_le (suc n) (x ∷ xs) h = drop-of_le n xs (omega arith)

  pub take-append :
      (n : ℕ) (xs ys : List A) → take n (xs ++ ys) ≡ take n xs ++ take (n - length xs) ys
  take-append n [] ys = rw (sub-zero n) (sym (nothing n (take n ys)))
    where
      nothing : (k : ℕ) (zs : List A) → take k [] ++ zs ≡ zs
      nothing zero zs = refl
      nothing (suc k) zs = refl
  take-append zero (x ∷ xs) ys =
      let none_left : 0 - length (x ∷ xs) ≡ 0 = omega arith in rw none_left
  take-append (suc n) (x ∷ xs) ys =
      rw (suc-sub-suc n (length xs)) (ap (λ l. x ∷ l) (take-append n xs ys))

  -- Reading at most what was copied to the front.
  pub take-overlay_le :
      (n : ℕ) (xs ys : List A)
      → n ≤ length ys
      → length ys ≤ length xs
      → take n (overlay xs ys) ≡ take n ys
  take-overlay_le zero xs ys h k = refl
  take-overlay_le (suc n) xs [] h k = absurd (omega arith)
  take-overlay_le (suc n) [] (y ∷ ys) h k = absurd (omega arith)
  take-overlay_le (suc n) (x ∷ xs) (y ∷ ys) h k =
      ap (λ l. y ∷ l) (take-overlay_le n xs ys (omega arith) (omega arith))

  pub take-min-length : (n : ℕ) (xs : List A) → take (min (length xs) n) xs ≡ take n xs
  take-min-length zero xs = rw (min-zero (length xs))
  take-min-length (suc n) [] = rw (zero-min (suc n))
  take-min-length (suc n) (x ∷ xs) =
      rw (suc-min-suc (length xs) n) (ap (λ l. x ∷ l) (take-min-length n xs))
