-- ===== src/Container/Loops.antt =====
-- sylar/config.h: the loops that the casts of the containers share, and what they compute.
use sylar_server_study.Base.{
  ℕ, zero, suc, ◌+◌, Text, List, [], ◌∷◌, map, Option, none, some, ◌>>=◌, ◌≡◌, refl, ◌∙◌,
  Option-cases, inl, inr,
}
use sylar_server_study.Config.{Cast}
use sylar_server_study.Container.Yaml.{Yaml, texts, pair_text, pushed, assigned}

-- All the elements, in order, or an exception of one of them.
abbrev pub cast_all : {S T : Type 0} → (S → Option T) → List S → Option (List T)
cast_all f [] = some []
cast_all f (x ∷ xs) = f x >>= λ a. cast_all f xs >>= λ as'. some (a ∷ as')

abbrev pub insert_all : {T C : Type 0} → (C → T → C) → C → List T → C
insert_all insert vec [] = vec
insert_all insert vec (x ∷ xs) = insert_all insert (insert vec x) xs

module _ (y : Yaml) {T : Type 0} (c : Cast T) where
  open y use {Doc, load, emit, null, size, at, push_back, pairs, assign}

  -- A key and the value of its text.
  abbrev pub cast_pair : Option Text × Text → Option (Text × T)
  cast_pair (k, t) = k >>= λ key. c.from_str t >>= λ x. some (key, x)

  -- The text of an element, loaded.
  abbrev pub load_written : T → Option Doc
  load_written x = c.to_str x >>= load

  abbrev pub load_member : Text × T → Option (Text × Doc)
  load_member (k, x) = load_written x >>= λ n. some (k, n)

  module _ {C : Type 0} (insert : C → T → C) where
    -- `for (size_t i = 0; i < node.size(); ++i)`, with `left` elements to go.
    unfoldable pub each_element : Doc → ℕ → ℕ → C → Option C
    each_element node i zero vec = some vec
    each_element node i (suc left) vec =
        c.from_str (emit (at node i)) >>= λ x. each_element node (i + 1) left (insert vec x)

    pub each_element_lem :
        (node : Doc) (i left : ℕ) (vec : C)
        → each_element node i left vec
          ≡ (cast_all c.from_str (texts y node i left) >>= λ xs. some (insert_all insert vec xs))
    unfolding each_element
    each_element_lem node i zero vec = refl
    each_element_lem node i (suc left) vec = elim (Option-cases (c.from_str (emit (at node i)))) [
      | inl bad ↦ rw bad
      | inr (x, good) ↦ rw good (
          each_element_lem node (i + 1) left (insert vec x)
          ∙ (elim (Option-cases (cast_all c.from_str (texts y node (i + 1) left))) [
            | inl bad' ↦ rw bad'
            | inr (xs, good') ↦ rw good'
          ]))
    ]

  module _ {C : Type 0} (insert : C → Text × T → C) where
    -- `for (auto it = node.begin(); it != node.end(); ++it)`
    unfoldable pub each_pair : List (Option Text × Doc) → C → Option C
    each_pair [] vec = some vec
    each_pair ((k, n) ∷ ps) vec =
        k >>= λ key. c.from_str (emit n) >>= λ x. each_pair ps (insert vec (key, x))

    pub each_pair_lem :
        (ps : List (Option Text × Doc)) (vec : C)
        → each_pair ps vec
          ≡ (cast_all cast_pair (map (pair_text y) ps) >>= λ xs. some (insert_all insert vec xs))
    unfolding each_pair
    each_pair_lem [] vec = refl
    each_pair_lem ((none, n) ∷ ps) vec = refl
    each_pair_lem ((some key, n) ∷ ps) vec = elim (Option-cases (c.from_str (emit n))) [
      | inl bad ↦ rw bad
      | inr (x, good) ↦ rw good (
          each_pair_lem ps (insert vec (key, x))
          ∙ (elim (Option-cases (cast_all cast_pair (map (pair_text y) ps))) [
            | inl bad' ↦ rw bad'
            | inr (xs, good') ↦ rw good'
          ]))
    ]

  -- `node.push_back(YAML::Load(…))` for each element.
  unfoldable pub push_each : Doc → List T → Option Doc
  push_each node [] = some node
  push_each node (x ∷ xs) = c.to_str x >>= λ t. load t >>= λ n. push_each (push_back node n) xs

  pub push_each_lem :
      (node : Doc) (xs : List T)
      → push_each node xs ≡ (cast_all load_written xs >>= λ ns. some (pushed y node ns))
  unfolding push_each
  push_each_lem node [] = refl
  push_each_lem node (x ∷ xs) = elim (Option-cases (c.to_str x)) [
    | inl bad ↦ rw bad
    | inr (t, good) ↦ elim (Option-cases (load t)) [
      | inl bad' ↦ rw (good, bad')
      | inr (n, good') ↦
          rw (good, good')
            (push_each_lem (push_back node n) xs ∙ (elim (Option-cases (cast_all load_written xs)) [
              | inl bad'' ↦ rw bad''
              | inr (ns, good'') ↦ rw good''
            ]))
    ]
  ]

  -- `node[i.first] = YAML::Load(…)` for each member.
  unfoldable pub assign_each : Doc → List (Text × T) → Option Doc
  assign_each node [] = some node
  assign_each node ((k, x) ∷ xs) =
      c.to_str x >>= λ t. load t >>= λ n. assign_each (assign node k n) xs

  pub assign_each_lem :
      (node : Doc) (xs : List (Text × T))
      → assign_each node xs ≡ (cast_all load_member xs >>= λ ns. some (assigned y node ns))
  unfolding assign_each
  assign_each_lem node [] = refl
  assign_each_lem node ((k, x) ∷ xs) = elim (Option-cases (c.to_str x)) [
    | inl bad ↦ rw bad
    | inr (t, good) ↦ elim (Option-cases (load t)) [
      | inl bad' ↦ rw (good, bad')
      | inr (n, good') ↦
          rw (good, good')
            (assign_each_lem (assign node k n) xs ∙ (elim (Option-cases (cast_all load_member xs)) [
              | inl bad'' ↦ rw bad''
              | inr (ns, good'') ↦ rw good''
            ]))
    ]
  ]
