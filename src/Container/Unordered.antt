-- ===== src/Container/Unordered.antt =====
-- `std::unordered_set` and `std::unordered_map`: a list of the elements in the order in which they are
-- iterated, which is not specified.
use sylar_server_study.Base.{
  Bool, true, false, if◌then◌else◌, List, [], ◌∷◌, Option, none, some, ◌≡◌, ◌↔◌, refl, sym, ap,
  subst, ◌∙◌, arith, Bool-cases, inl, inr,
}
use mathlib.Core.List.{Permᴰ as Perm}
use sylar_server_study.Container.Loops.{insert_all}
use sylar_server_study.Container.Sorted.{or_else, or_else-none, or_else_first}

-- `operator==` decides equality of the keys of the elements.
abbrev pub Decides : {K : Type 0} → (K → K → Bool) → Type 0
Decides {K} equal = (a b : K) → (equal a b ≡ true) ↔ (a ≡ b)

module _ {T K : Type 0} (key : T → K) (equal : K → K → Bool) where
  -- `insert`: an element with a key that is there already is not inserted.
  unfoldable pub bucket_insert : List T → T → List T
  bucket_insert [] x = x ∷ []
  bucket_insert (y ∷ ys) x =
      let rest = bucket_insert ys x in if equal (key y) (key x) then y ∷ ys else y ∷ rest

  -- `find`
  unfoldable pub bucket_find : K → List T → Option T
  bucket_find k [] = none
  bucket_find k (y ∷ ys) = if equal (key y) k then some y else bucket_find k ys

  abbrev pub Missing : K → List T → Type 0
  Missing k [] = Unit
  Missing k (y ∷ ys) = (equal (key y) k ≡ false) × Missing k ys

  -- No two elements have the same key.
  abbrev pub Unique : List T → Type 0
  Unique [] = Unit
  Unique (y ∷ ys) = Missing (key y) ys × Unique ys

module _ {T K : Type 0} (key : T → K) (equal : K → K → Bool) (decides : Decides equal) where
  equal_same : (a b c : K) → equal a b ≡ true → equal a c ≡ equal b c
  equal_same a b c h = ap (λ z. equal z c) ((decides a b).0 h)

  bucket_find-bucket_insert :
      (k : K) (x : T) (ys : List T)
      → bucket_find key equal k (bucket_insert key equal ys x)
        ≡ or_else (bucket_find key equal k ys) (if equal (key x) k then some x else none)
  unfolding bucket_insert bucket_find
  bucket_find-bucket_insert k x [] = refl
  bucket_find-bucket_insert k x (y ∷ ys) = elim (Bool-cases (equal (key y) (key x))) [
    | inl e ↦ elim (Bool-cases (equal (key y) k)) [
      | inl f ↦ rw (e, f) refl
      | inr f ↦
          rw
            (
              e,
              f,
              sym (equal_same (key y) (key x) k e) ∙ f,
              or_else-none (bucket_find key equal k ys),
            )
            refl
    ]
    | inr e ↦ elim (Bool-cases (equal (key y) k)) [
      | inl f ↦ rw (e, f) refl
      | inr f ↦ rw (e, f) (bucket_find-bucket_insert k x ys)
    ]
  ]

  -- `find` in what a list of elements was inserted into, from the left.
  pub bucket_find-insert_all :
      (k : K) (ys xs : List T)
      → bucket_find key equal k (insert_all (bucket_insert key equal) ys xs)
        ≡ or_else (bucket_find key equal k ys) (bucket_find key equal k xs)
  unfolding bucket_find
  bucket_find-insert_all k ys [] = sym (or_else-none (bucket_find key equal k ys))
  bucket_find-insert_all k ys (x ∷ xs) =
      bucket_find-insert_all k (bucket_insert key equal ys x) xs
      ∙ (rw (bucket_find-bucket_insert k x ys) (
          or_else_first (bucket_find key equal k ys) (bucket_find key equal k xs) (equal (key x) k)
            x))

  Missing-bucket_insert :
      (k : K) (x : T) (ys : List T)
      → Missing key equal k ys
      → equal (key x) k ≡ false
      → Missing key equal k (bucket_insert key equal ys x)
  unfolding bucket_insert
  Missing-bucket_insert k x [] m n = (n, tt)
  Missing-bucket_insert k x (y ∷ ys) (m, ms) n = elim (Bool-cases (equal (key y) (key x))) [
    | inl e ↦ rw e (m, ms)
    | inr e ↦ rw e (m, Missing-bucket_insert k x ys ms n)
  ]

  equal_sym : (a b : K) → equal a b ≡ false → equal b a ≡ false
  equal_sym a b h = elim (Bool-cases (equal b a)) [
    | inl e ↦ absurd (ground (arith, (decides a b).1 (sym ((decides b a).0 e))))
    | inr q ↦ q
  ]

  bucket_insert-Unique :
      (x : T) (ys : List T) → Unique key equal ys → Unique key equal (bucket_insert key equal ys x)
  unfolding bucket_insert
  bucket_insert-Unique x [] u = (tt, tt)
  bucket_insert-Unique x (y ∷ ys) (m, u) = elim (Bool-cases (equal (key y) (key x))) [
    | inl e ↦ rw e (m, u)
    | inr e ↦ rw e (
      Missing-bucket_insert (key y) x ys m (equal_sym (key y) (key x) e),
      bucket_insert-Unique x ys u,
    )
  ]

  pub insert_all-Unique :
      (ys xs : List T)
      → Unique key equal ys
      → Unique key equal (insert_all (bucket_insert key equal) ys xs)
  insert_all-Unique ys [] u = u
  insert_all-Unique ys (x ∷ xs) u =
      insert_all-Unique (bucket_insert key equal ys x) xs (bucket_insert-Unique x ys u)

  Missing-Perm :
      (k : K) {xs ys : List T} → Perm xs ys → Missing key equal k xs → Missing key equal k ys
  Missing-Perm k Perm.nil m = tt
  Missing-Perm k (Perm.cons e p) (m, ms) = (rw (sym e) m, Missing-Perm k p ms)
  Missing-Perm k (Perm.swap e f) (m, (n, ms)) = (rw (sym f) n, (rw (sym e) m, ms))
  Missing-Perm k (Perm.trans p q) m = Missing-Perm k q (Missing-Perm k p m)

  pub Unique-Perm : {xs ys : List T} → Perm xs ys → Unique key equal xs → Unique key equal ys
  Unique-Perm Perm.nil u = tt
  Unique-Perm (Perm.cons e p) (m, u) = (rw (sym e) (Missing-Perm _ p m), Unique-Perm p u)
  Unique-Perm (Perm.swap {l = l} e f) ((m, ms), (n, u)) = (
    (rw (sym e, sym f) (equal_sym _ _ m), subst (λ z. Missing key equal (key z) l) f n),
    (subst (λ z. Missing key equal (key z) l) e ms, u),
  )
  Unique-Perm (Perm.trans p q) u = Unique-Perm q (Unique-Perm p u)

  swapped :
      (k : K) (a b : T) (o : Option T)
      → equal (key b) (key a) ≡ false
      → (if equal (key a) k then some a else if equal (key b) k then some b else o)
        ≡ (if equal (key b) k then some b else if equal (key a) k then some a else o)
  swapped k a b o m = elim (Bool-cases (equal (key b) k)) [
    | inl q ↦ rw (q, equal_sym k (key a) (sym (equal_same (key b) k (key a) q) ∙ m)) refl
    | inr q ↦ rw q refl
  ]

  -- The order in which the elements stand does not matter to `find`.
  pub bucket_find-Perm :
      (k : K) {xs ys : List T}
      → Perm xs ys
      → Unique key equal xs
      → bucket_find key equal k xs ≡ bucket_find key equal k ys
  unfolding bucket_find
  bucket_find-Perm k Perm.nil u = refl
  bucket_find-Perm k (Perm.cons e p) (m, u) = rw (e, bucket_find-Perm k p u) refl
  bucket_find-Perm k (Perm.swap {a} {b} e f) ((m, ms), u) = rw (sym e, sym f) (swapped k a b _ m)
  bucket_find-Perm k (Perm.trans p q) u =
      bucket_find-Perm k p u ∙ bucket_find-Perm k q (Unique-Perm p u)
