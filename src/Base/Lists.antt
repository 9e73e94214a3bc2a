-- ===== src/Base/Lists.antt =====
-- Lists measured and indexed by native numbers: the store of objects behind pointers is such a list.
use Prim.Native.Nat.{ℕ, zero, suc, ◌+◌, ◌<◌}
use mathlib.Core.Path.{◌≡◌, refl, ap}
use mathlib.Core.Logic.{◌≢◌}
use mathlib.Core.Bool.{Bool, true, ◌&&◌}
use mathlib.Core.List.{List, [], ◌∷◌, ◌++◌}
use mathlib.Core.Option.{Option, none, some}
use native.Mathlib.Omega.{arith}

module _ {ℓ} {A : Type ℓ} where
  abbrev pub length : List A → ℕ
  length [] = 0
  length (x ∷ xs) = suc (length xs)

  abbrev pub get_elem? : List A → ℕ → Option A
  get_elem? [] i = none
  get_elem? (x ∷ xs) zero = some x
  get_elem? (x ∷ xs) (suc i) = get_elem? xs i

  -- The object at `i` is changed in place; a dangling index changes nothing.
  abbrev pub modify : List A → ℕ → (A → A) → List A
  modify [] i f = []
  modify (x ∷ xs) zero f = f x ∷ xs
  modify (x ∷ xs) (suc i) f = x ∷ modify xs i f

  abbrev pub head? : List A → Option A
  head? [] = none
  head? (x ∷ xs) = some x

  pub length-append : (xs ys : List A) → length (xs ++ ys) ≡ length xs + length ys
  length-append [] ys = omega arith
  length-append (x ∷ xs) ys = omega (arith, length-append xs ys)

module _ {ℓ} {A : Type ℓ} where
  pub length-modify : (xs : List A) (i : ℕ) (f : A → A) → length (modify xs i f) ≡ length xs
  length-modify [] i f = refl
  length-modify (x ∷ xs) zero f = refl
  length-modify (x ∷ xs) (suc i) f = ap suc (length-modify xs i f)

  pub get_elem?-modify_self :
      (xs : List A) (i : ℕ) (f : A → A) (a : A)
      → get_elem? xs i ≡ some a
      → get_elem? (modify xs i f) i ≡ some (f a)
  get_elem?-modify_self [] i f a h = cc
  get_elem?-modify_self (x ∷ xs) zero f a h = cc
  get_elem?-modify_self (x ∷ xs) (suc i) f a h = get_elem?-modify_self xs i f a h

  pub get_elem?-modify_ne :
      (xs : List A) (i j : ℕ) (f : A → A) → i ≢ j → get_elem? (modify xs i f) j ≡ get_elem? xs j
  get_elem?-modify_ne [] i j f h = refl
  get_elem?-modify_ne (x ∷ xs) zero zero f h = absurd (h refl)
  get_elem?-modify_ne (x ∷ xs) zero (suc j) f h = refl
  get_elem?-modify_ne (x ∷ xs) (suc i) zero f h = refl
  get_elem?-modify_ne (x ∷ xs) (suc i) (suc j) f h =
      get_elem?-modify_ne xs i j f (λ e. h (ap suc e))

  -- The new object stands behind all others.
  pub get_elem?-append_new : (xs : List A) (a : A) → get_elem? (xs ++ a ∷ []) (length xs) ≡ some a
  get_elem?-append_new [] a = refl
  get_elem?-append_new (x ∷ xs) a = get_elem?-append_new xs a

  pub get_elem?-append_old :
      (xs ys : List A) (i : ℕ) → i < length xs → get_elem? (xs ++ ys) i ≡ get_elem? xs i
  get_elem?-append_old [] ys i h = elim h [ ]
  get_elem?-append_old (x ∷ xs) ys zero h = refl
  get_elem?-append_old (x ∷ xs) ys (suc i) h = get_elem?-append_old xs ys i (omega arith)

  pub get_elem?-lt : (xs : List A) (i : ℕ) (a : A) → get_elem? xs i ≡ some a → i < length xs
  get_elem?-lt [] i a h = cc
  get_elem?-lt (x ∷ xs) zero a h = omega arith
  get_elem?-lt (x ∷ xs) (suc i) a h = omega (arith, get_elem?-lt xs i a h)

module _ {ℓ} {A : Type ℓ} where
  abbrev pub all : (A → Bool) → List A → Bool
  all q [] = true
  all q (x ∷ xs) = q x && all q xs

  pub all-get :
      (q : A → Bool) (xs : List A) (i : ℕ) (a : A)
      → all q xs ≡ true
      → get_elem? xs i ≡ some a
      → q a ≡ true
  all-get q [] i a h e = cc
  all-get q (x ∷ xs) zero a h e = ground arith
  all-get q (x ∷ xs) (suc i) a h e = all-get q xs i a (ground arith) e

  pub all_mono :
      (q r : A → Bool) (xs : List A)
      → ((a : A) → q a ≡ true → r a ≡ true)
      → all q xs ≡ true
      → all r xs ≡ true
  all_mono q r [] f h = refl
  all_mono q r (x ∷ xs) f h = ground (arith, f x, all_mono q r xs f)

  pub all-modify :
      (q : A → Bool) (xs : List A) (i : ℕ) (f : A → A)
      → ((a : A) → q a ≡ true → q (f a) ≡ true)
      → all q xs ≡ true
      → all q (modify xs i f) ≡ true
  all-modify q [] i f k h = refl
  all-modify q (x ∷ xs) zero f k h = ground (arith, k x)
  all-modify q (x ∷ xs) (suc i) f k h = ground (arith, all-modify q xs i f k)

  pub all-append_one :
      (q : A → Bool) (xs : List A) (a : A)
      → all q xs ≡ true
      → q a ≡ true
      → all q (xs ++ a ∷ []) ≡ true
  all-append_one q [] a h k = ground arith
  all-append_one q (x ∷ xs) a h k = ground (arith, all-append_one q xs a)

module _ {ℓ} {A : Type ℓ} where
  pub modify_fixed :
      (xs : List A) (i : ℕ) (f : A → A) (a : A)
      → get_elem? xs i ≡ some a
      → f a ≡ a
      → modify xs i f ≡ xs
  modify_fixed [] i f a h e = refl
  modify_fixed (x ∷ xs) zero f a h e = ground arith
  modify_fixed (x ∷ xs) (suc i) f a h e = ap (◌∷◌ x) (modify_fixed xs i f a h e)

  pub modify-append_new :
      (xs : List A) (a : A) (f : A → A) → modify (xs ++ a ∷ []) (length xs) f ≡ xs ++ f a ∷ []
  modify-append_new [] a f = refl
  modify-append_new (x ∷ xs) a f = ap (◌∷◌ x) (modify-append_new xs a f)
