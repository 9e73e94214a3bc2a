-- ===== src/Container/Sorted.antt =====
-- `std::set`, and `std::map` as a set of pairs that are compared by their keys: the list of the
-- elements in ascending order.
use sylar_server_study.Base.{
  Bool, true, false, if◌then◌else◌, List, [], ◌∷◌, ◌++◌, append-nil, append_assoc, ap, Option, none,
  some, ◌≡◌, refl, sym, ◌∙◌, arith, Bool-cases, inl, inr,
}
use sylar_server_study.Container.Order.{IsWeakOrder, equivalent}
use sylar_server_study.Container.Loops.{insert_all}

module _ {T : Type 0} (less : T → T → Bool) where
  -- `insert`: an element that is equivalent to one in the set is not inserted.
  unfoldable pub set_insert : List T → T → List T
  set_insert [] x = x ∷ []
  set_insert (y ∷ ys) x =
      let rest = set_insert ys x in
      if less x y then x ∷ y ∷ ys else if less y x then y ∷ rest else y ∷ ys

  -- `find`
  unfoldable pub set_find : T → List T → Option T
  set_find z [] = none
  set_find z (y ∷ ys) = if equivalent less z y then some y else set_find z ys

  abbrev pub Below : T → List T → Type 0
  Below x [] = Unit
  Below x (y ∷ ys) = (less x y ≡ true) × Below x ys

  abbrev pub Ascending : List T → Type 0
  Ascending [] = Unit
  Ascending (x ∷ xs) = Below x xs × Ascending xs

-- The first that is there.
abbrev pub or_else : {T : Type 0} → Option T → Option T → Option T
or_else none o = o
or_else (some x) o = some x

pub or_else-none : {A : Type 0} (o : Option A) → or_else o none ≡ o
or_else-none none = refl
or_else-none (some x) = refl

pub or_else_first :
    {A : Type 0} (o r : Option A) (b : Bool) (x : A)
    → or_else (or_else o (if b then some x else none)) r ≡ or_else o (if b then some x else r)
or_else_first none r true x = refl
or_else_first none r false x = refl
or_else_first (some w) r b x = refl

module _ {T : Type 0} (less : T → T → Bool) (order : IsWeakOrder less) where
  Below-weaken : (x y : T) (ys : List T) → less x y ≡ true → Below less y ys → Below less x ys
  Below-weaken x y [] h b = tt
  Below-weaken x y (z ∷ ys) h (b, bs) = (order.trans x y z h b, Below-weaken x y ys h bs)

  Below-set_insert :
      (x y : T) (ys : List T)
      → less x y ≡ true
      → Below less x ys
      → Below less x (set_insert less ys y)
  unfolding set_insert
  Below-set_insert x y [] h b = (h, tt)
  Below-set_insert x y (z ∷ ys) h (b, bs) = elim (Bool-cases (less y z)) [
    | inl lower ↦ rw lower (h, (b, bs))
    | inr q ↦ elim (Bool-cases (less z y)) [
      | inl upper ↦ rw (q, upper) (b, Below-set_insert x y ys h bs)
      | inr same ↦ rw (q, same) (b, bs)
    ]
  ]

  pub set_insert-Ascending :
      (x : T) (ys : List T) → Ascending less ys → Ascending less (set_insert less ys x)
  unfolding set_insert
  set_insert-Ascending x [] a = (tt, tt)
  set_insert-Ascending x (y ∷ ys) (b, a) = elim (Bool-cases (less x y)) [
    | inl lower ↦ rw lower ((lower, Below-weaken x y ys lower b), (b, a))
    | inr q ↦ elim (Bool-cases (less y x)) [
      | inl upper ↦ rw (q, upper) (Below-set_insert y x ys upper b, set_insert-Ascending x ys a)
      | inr same ↦ rw (q, same) (b, a)
    ]
  ]

  pub insert_all-Ascending :
      (ys xs : List T) → Ascending less ys → Ascending less (insert_all (set_insert less) ys xs)
  insert_all-Ascending ys [] a = a
  insert_all-Ascending ys (x ∷ xs) a =
      insert_all-Ascending (set_insert less ys x) xs (set_insert-Ascending x ys a)

  -- Nothing is equivalent to what is below all.
  set_find-Below :
      (z x : T) (ys : List T) → less z x ≡ true → Below less x ys → set_find less z ys ≡ none
  unfolding set_find
  set_find-Below z x [] h b = refl
  set_find-Below z x (y ∷ ys) h (b, bs) = rw (order.trans z x y h b) (set_find-Below z x ys h bs)

  equivalent_trans :
      (x y z : T)
      → equivalent less x y ≡ true
      → equivalent less y z ≡ true
      → equivalent less x z ≡ true
  equivalent_trans x y z h k = elim (Bool-cases (less x z)) [
    | inl up ↦ elim (order.cotrans x y z up) [ inl a ↦ ground arith | inr a ↦ ground arith ]
    | inr q ↦ elim (Bool-cases (less z x)) [
      | inl down ↦ elim (order.cotrans z y x down) [ inl a ↦ ground arith | inr a ↦ ground arith ]
      | inr r ↦ rw (q, r)
    ]
  ]

  -- Something equivalent to what is below all is below all.
  find_lower :
      (z x y : T) (ys : List T)
      → equivalent less z x ≡ true
      → less x y ≡ true
      → Below less y ys
      → set_find less z (y ∷ ys) ≡ none
  unfolding set_find
  find_lower z x y ys e h b = elim (order.cotrans x z y h) [
    | inl up ↦ absurd (ground arith)
    | inr up ↦ rw up (set_find-Below z y ys up b)
  ]

  -- Of two equivalent elements the set finds the same.
  same_first :
      (z x y : T)
      → equivalent less z x ≡ true
      → less x y ≡ false
      → less y x ≡ false
      → equivalent less z y ≡ true
  same_first z x y e p q = equivalent_trans z x y e (rw (p, q) refl)

  -- The one element that is found in the set after an insertion.
  pub set_find-set_insert :
      (z x : T) (ys : List T)
      → Ascending less ys
      → set_find less z (set_insert less ys x)
        ≡ or_else (set_find less z ys) (if equivalent less z x then some x else none)
  unfolding set_insert set_find
  set_find-set_insert z x [] a = refl
  set_find-set_insert z x (y ∷ ys) (b, a) = elim (Bool-cases (less x y)) [
    | inl lower ↦ elim (Bool-cases (equivalent less z x)) [
      | inl e ↦ rw (lower, e, find_lower z x y ys e lower b) refl
      | inr n ↦ rw (lower, n, or_else-none (set_find less z (y ∷ ys))) refl
    ]
    | inr q ↦ elim (Bool-cases (less y x)) [
      | inl upper ↦ elim (Bool-cases (equivalent less z y)) [
        | inl e ↦ rw (q, upper, e) refl
        | inr n ↦ rw (q, upper, n) (set_find-set_insert z x ys a)
      ]
      | inr same ↦ elim (Bool-cases (equivalent less z x)) [
        | inl e ↦ rw (q, same, e, same_first z x y e q same) refl
        | inr n ↦ rw (q, same, n, or_else-none (set_find less z (y ∷ ys))) refl
      ]
    ]
  ]

  -- `find` in a list of elements that was inserted from the left into an empty set.
  pub set_find-insert_all :
      (z : T) (ys xs : List T)
      → Ascending less ys
      → set_find less z (insert_all (set_insert less) ys xs)
        ≡ or_else (set_find less z ys) (set_find less z xs)
  unfolding set_find
  set_find-insert_all z ys [] a = sym (or_else-none (set_find less z ys))
  set_find-insert_all z ys (x ∷ xs) a =
      set_find-insert_all z (set_insert less ys x) xs (set_insert-Ascending x ys a)
      ∙ (rw (set_find-set_insert z x ys a)
          (or_else_first (set_find less z ys) (set_find less z xs) (equivalent less z x) x))

module _ {T : Type 0} (less : T → T → Bool) (order : IsWeakOrder less) where
  -- Everything in the first list is below everything in the second.
  abbrev Apart : List T → List T → Type 0
  Apart [] xs = Unit
  Apart (y ∷ ys) xs = Below less y xs × Apart ys xs

  set_insert-last :
      (x : T) (ys xs : List T) → Apart ys (x ∷ xs) → set_insert less ys x ≡ ys ++ x ∷ []
  unfolding set_insert
  set_insert-last x [] xs a = refl
  set_insert-last x (y ∷ ys) xs ((b, bs), a) =
      rw (not_below x y b, b) (ap (◌∷◌ y) (set_insert-last x ys xs a))
    where
      not_below : (x y : T) → less y x ≡ true → less x y ≡ false
      not_below x y h = elim (Bool-cases (less x y)) [
        | inl up ↦ absurd (ground (arith, order.irrefl x, order.trans x y x up h))
        | inr q ↦ q
      ]

  Apart-extend :
      (x : T) (ys xs : List T) → Apart ys (x ∷ xs) → Below less x xs → Apart (ys ++ x ∷ []) xs
  Apart-extend x [] xs a b = (b, tt)
  Apart-extend x (y ∷ ys) xs ((c, cs), a) b = (cs, Apart-extend x ys xs a b)

  insert_all-append :
      (ys xs : List T)
      → Apart ys xs
      → Ascending less xs
      → insert_all (set_insert less) ys xs ≡ ys ++ xs
  insert_all-append ys [] a h = sym (append-nil ys)
  insert_all-append ys (x ∷ xs) a (b, h) = rw (set_insert-last x ys xs a) (
      insert_all-append (ys ++ x ∷ []) xs (Apart-extend x ys xs a b) h
      ∙ append_assoc ys (x ∷ []) xs)

  -- To insert the elements of a set in order gives the set.
  pub insert_all-same : (xs : List T) → Ascending less xs → insert_all (set_insert less) [] xs ≡ xs
  insert_all-same xs h = insert_all-append [] xs tt h
