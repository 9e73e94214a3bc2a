-- ===== src/Container/Views.antt =====
-- What the casts from a text give: the elements of the loaded node, each cast, put together as the
-- container does it.
use sylar_server_study.Base.{
  Bool, Text, text_eq, text_eq_iff, map, List, [], ◌∷◌, ◌++◌, append-nil, append_assoc, Option,
  none, some, ◌>>=◌, ◌≡◌, sym, ap, subst, ◌∙◌, Option-cases, inl, inr,
}
use sylar_server_study.Config.{Cast}
use sylar_server_study.Container.Yaml.{Yaml, texts, pair_text}
use sylar_server_study.Container.Order.{IsWeakOrder, less_by-IsWeakOrder}
use sylar_server_study.Container.Sorted.{
  set_insert, set_find, Ascending, insert_all-Ascending, set_find-insert_all,
}
use sylar_server_study.Container.Unordered.{
  bucket_insert, bucket_find, Decides, Unique, insert_all-Unique, bucket_find-insert_all,
}
use sylar_server_study.Container.Loops.{
  cast_all, cast_pair, insert_all, each_element, each_element_lem, each_pair, each_pair_lem,
}
use sylar_server_study.Container.Cast.{
  append_one, itself, key_of, key_less, vector_from_str, set_from_str, unordered_set_from_str,
  map_from_str, unordered_map_from_str,
}

-- The set of some elements, of which the first of several equivalent ones is kept.
abbrev pub IsFirstOf : {T : Type 0} → (T → T → Bool) → Option (List T) → Option (List T) → Type 0
IsFirstOf less none none = Unit
IsFirstOf less none (some ys) = ⊥
IsFirstOf less (some xs) none = ⊥
IsFirstOf {T} less (some xs) (some ys) =
    Ascending less ys × ((z : T) → set_find less z ys ≡ set_find less z xs)

-- The same without an order: elements with distinct keys, of which the first is found.
abbrev pub IsFirstIn :
    {T K : Type 0} → (T → K) → (K → K → Bool) → Option (List T) → Option (List T) → Type 0
IsFirstIn key equal none none = Unit
IsFirstIn key equal none (some ys) = ⊥
IsFirstIn key equal (some xs) none = ⊥
IsFirstIn {T} {K} key equal (some xs) (some ys) =
    Unique key equal ys × ((k : K) → bucket_find key equal k ys ≡ bucket_find key equal k xs)

bucket_insert-IsFirstIn :
    {T K : Type 0} (key : T → K) (equal : K → K → Bool)
    → Decides equal
    → (o : Option (List T))
    → IsFirstIn key equal o (o >>= λ xs. some (insert_all (bucket_insert key equal) [] xs))
unfolding bucket_find
bucket_insert-IsFirstIn key equal decides none = tt
bucket_insert-IsFirstIn key equal decides (some xs) = (
  insert_all-Unique key equal decides [] xs tt,
  λ k. bucket_find-insert_all key equal decides k [] xs,
)

set_insert-IsFirstOf :
    {T : Type 0} (less : T → T → Bool)
    → IsWeakOrder less
    → (o : Option (List T))
    → IsFirstOf less o (o >>= λ xs. some (insert_all (set_insert less) [] xs))
unfolding set_find
set_insert-IsFirstOf less order none = tt
set_insert-IsFirstOf less order (some xs) =
    (insert_all-Ascending less order [] xs tt, λ z. set_find-insert_all less order z [] xs tt)

pub insert_all-append_one :
    {T : Type 0} (vec xs : List T) → insert_all append_one vec xs ≡ vec ++ xs
insert_all-append_one vec [] = sym (append-nil vec)
insert_all-append_one vec (x ∷ xs) =
    insert_all-append_one (vec ++ x ∷ []) xs ∙ append_assoc vec (x ∷ []) xs

module _ (y : Yaml) {T : Type 0} (c : Cast T) where
  open y use {Doc, load, emit, size, pairs}

  -- The elements of a text, in order.
  abbrev pub elements : Text → Option (List T)
  elements v = load v >>= λ node. cast_all c.from_str (texts y node 0 (size node))

  abbrev pub members : Text → Option (List (Text × T))
  members v = load v >>= λ node. cast_all (cast_pair y c) (map (pair_text y) (pairs node))

  elements-insert :
      {C : Type 0} (insert : C → T → C) (vec : C) (v : Text)
      → (load v >>= λ node. each_element y c insert node 0 (size node) vec)
        ≡ (elements v >>= λ xs. some (insert_all insert vec xs))
  elements-insert insert vec v = elim (Option-cases (load v)) [
    | inl bad ↦ rw bad
    | inr (node, good) ↦ rw good (each_element_lem y c insert node 0 (size node) vec)
  ]

  members-insert :
      {C : Type 0} (insert : C → Text × T → C) (vec : C) (v : Text)
      → (load v >>= λ node. each_pair y c insert (pairs node) vec)
        ≡ (members v >>= λ xs. some (insert_all insert vec xs))
  members-insert insert vec v = elim (Option-cases (load v)) [
    | inl bad ↦ rw bad
    | inr (node, good) ↦ rw good (each_pair_lem y c insert (pairs node) vec)
  ]

  pub vector_from_str-elements : (v : Text) → vector_from_str y c v ≡ elements v
  unfolding vector_from_str
  vector_from_str-elements v = elements-insert append_one [] v ∙ (elim (Option-cases (elements v)) [
    | inl bad ↦ rw bad
    | inr (xs, good) ↦ rw good (ap some (insert_all-append_one [] xs))
  ])

  pub set_from_str-elements :
      (less : T → T → Bool) (v : Text)
      → set_from_str y c less v ≡ (elements v >>= λ xs. some (insert_all (set_insert less) [] xs))
  unfolding set_from_str
  set_from_str-elements less v = elements-insert (set_insert less) [] v

  pub unordered_set_from_str-elements :
      (v : Text)
      → unordered_set_from_str y c v
        ≡ (elements v >>= λ xs. some (insert_all (bucket_insert itself c.equal) [] xs))
  unfolding unordered_set_from_str
  unordered_set_from_str-elements v = elements-insert (bucket_insert itself c.equal) [] v

  pub map_from_str-members :
      (v : Text)
      → map_from_str y c v ≡ (members v >>= λ xs. some (insert_all (set_insert key_less) [] xs))
  unfolding map_from_str
  map_from_str-members v = members-insert (set_insert key_less) [] v

  pub unordered_map_from_str-members :
      (v : Text)
      → unordered_map_from_str y c v
        ≡ (members v >>= λ xs. some (insert_all (bucket_insert key_of text_eq) [] xs))
  unfolding unordered_map_from_str
  unordered_map_from_str-members v = members-insert (bucket_insert key_of text_eq) [] v

  -- An ordered set or map that is read from a text ascends, and finds for any value, or key, the
  -- first element of the text that is equivalent to it, and nothing where there is none; if the text
  -- cannot be loaded, or an element cannot be cast, nothing is read. `operator<` of the elements is
  -- a strict weak ordering.
  pub set_from_str-first :
      (less : T → T → Bool) (v : Text)
      → IsWeakOrder less
      → IsFirstOf less (elements v) (set_from_str y c less v)
        × IsFirstOf key_less (members v) (map_from_str y c v)
  set_from_str-first less v order = (
    subst (IsFirstOf less (elements v)) (sym (set_from_str-elements less v))
        (set_insert-IsFirstOf less order (elements v)),
    subst (IsFirstOf key_less (members v)) (sym (map_from_str-members v))
        (set_insert-IsFirstOf key_less (less_by-IsWeakOrder key_of) (members v)),
  )

  -- An unordered set or map that is read from a text has distinct elements, or keys, and finds for
  -- every element, or key, the first of the text that equals it, and nothing where there is none; if
  -- the text cannot be loaded, or an element cannot be cast, nothing is read. `operator==` of the
  -- elements decides equality.
  pub unordered_set_from_str-first :
      (v : Text)
      → Decides c.equal
      → IsFirstIn itself c.equal (elements v) (unordered_set_from_str y c v)
        × IsFirstIn key_of text_eq (members v) (unordered_map_from_str y c v)
  unordered_set_from_str-first v decides = (
    subst (IsFirstIn itself c.equal (elements v)) (sym (unordered_set_from_str-elements v))
        (bucket_insert-IsFirstIn itself c.equal decides (elements v)),
    subst (IsFirstIn key_of text_eq (members v)) (sym (unordered_map_from_str-members v))
        (bucket_insert-IsFirstIn key_of text_eq text_eq_iff (members v)),
  )
