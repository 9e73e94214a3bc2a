-- ===== src/Config/Typed.antt =====
-- sylar/config.h and sylar/config.cc: the type of the variable that a pointer leads to.
use sylar_server_study.Base.{
  ℕ, Bool, true, false, Text, is_empty, map, to_lower, find, if◌then◌else◌, ◌==◌, ==_iff, List, [],
  ◌∷◌, Option, none, some, get_elem?, modify, get_elem?-modify_self, get_elem?-modify_ne,
  get_elem?-append_old, get_elem?-lt, ◌≡◌, ◌≢◌, refl, sym, ap, subst, ◌∙◌, arith, eq_of_some,
  Bool-cases, Option-cases, inl, inr,
}
use sylar_server_study.Config.{Cast, from_string}
use sylar_server_study.Config.Registry.{
  AnyVar, Configs, Notice, lookup_base, lookup, lookup_default, from_string_at, is_valid_name,
}
use sylar_server_study.Config.Lookup.{typed, pointer, lookup_same, outcome, lookup_default-outcome}
use sylar_server_study.Config.Members.{Node, Members}
use sylar_server_study.Config.Load.{load_node, load_all, load_from_yaml, text_of}

-- What a program does with `Config`: it declares a variable, or loads a tree.
pub data Use (El : ℕ → Type 0) : Type 0 where
  declared : Text → (t : ℕ) → El t → Text → Use El
  loaded : Node → Use El

module _ {El : ℕ → Type 0} {W : Type 0} where
  -- There is a variable of the type `t` at `p`.
  abbrev pub HasType : Configs El W → ℕ → ℕ → Type 0
  HasType s p t = (v : AnyVar El W) × (get_elem? s.vars p ≡ some v) × (v.tag ≡ t)

  modify-HasType :
      (vars : List (AnyVar El W)) (r p : ℕ) (u u' v : AnyVar El W)
      → get_elem? vars r ≡ some u
      → u'.tag ≡ u.tag
      → get_elem? vars p ≡ some v
      → (v' : AnyVar El W) × (get_elem? (modify vars r (λ x. u')) p ≡ some v') × (v'.tag ≡ v.tag)
  modify-HasType vars r p u u' v q same there = elim (Bool-cases (r == p)) [
    | inl here ↦
        let e : r ≡ p = ground arith in
        let u=v : u ≡ v =
          eq_of_some (sym q ∙ (subst (λ i. get_elem? vars i ≡ some v) (sym e) there)) in
        (
          u',
          subst (λ i. get_elem? (modify vars r (λ x. u')) i ≡ some u') e
              (get_elem?-modify_self vars r (λ x. u') u q),
          same ∙ ap (λ z. z.tag) u=v,
        )
    | inr other ↦
        let ne : r ≢ p = λ e. ground arith in
        (v, get_elem?-modify_ne vars r p (λ x. u') ne ∙ there, refl)
  ]

  noted-HasType :
      (ok : Bool) (s : Configs El W) (ns : List Notice) (p t : ℕ)
      → HasType s p t
      → HasType (if ok then s else record s { notices = ns }) p t
  noted-HasType true s ns p t h = h
  noted-HasType false s ns p t h = h

  lookup-HasType :
      (s : Configs El W) (name : Text) (t p u : ℕ) → HasType s p u → HasType (lookup s name t).0 p u
  lookup-HasType s name t p u (v, there, tag) =
      (v, ap (λ vs. get_elem? vs p) (lookup_same s name t).0 ∙ there, tag)

  -- `Lookup` gives a pointer only to a variable of the type that it is asked for.
  pointer-HasType :
      (s : Configs El W) (name : Text) (t p : ℕ)
      → pointer s.vars s.datas name t ≡ some p
      → HasType s p t
  pointer-HasType s name t p h = elim (Option-cases (find name s.datas)) [
    | inl q ↦ let e : none ≡ some p = rw (q, pointer) at h in absurd (cc)
    | inr (r, q) ↦
        let h' : typed s.vars t r ≡ some p = rw (q, pointer) at h in
        elim (Option-cases (get_elem? s.vars r)) [
          | inl a ↦ let e : none ≡ some p = rw (a, typed) at h' in absurd (cc)
          | inr (v, a) ↦
              let h'' : (if v.tag == t then some r else none) ≡ some p = rw (a, typed) at h' in
              elim (Bool-cases (v.tag == t)) [
                | inl same ↦
                    let e : r ≡ p = eq_of_some (rw same at h'') in
                    (v, subst (λ i. get_elem? s.vars i ≡ some v) e a, (==_iff v.tag t).0 same)
                | inr other ↦ let e : none ≡ some p = rw other at h'' in absurd (cc)
              ]
        ]
  ]

  outcome-HasType :
      (s : Configs El W) (name : Text) (t : ℕ) (d : El t) (e : Text) (o : Option ℕ) (valid : Bool)
      (p u : ℕ)
      → HasType s p u
      → HasType (outcome s name t d e o valid).0 p u
  outcome-HasType s name t d e (some q) valid p u h = h
  outcome-HasType s name t d e none false p u h = h
  outcome-HasType s name t d e none true p u (v, there, tag) =
      (v, get_elem?-append_old s.vars _ p (get_elem?-lt s.vars p v there) ∙ there, tag)

module _ {El : ℕ → Type 0} {W : Type 0} (casts : (t : ℕ) → Cast (El t))
    (emit : Members → Text) where
  from_string_at-HasType :
      (s : Configs El W) (r : ℕ) (val : Text) (p t : ℕ)
      → HasType s p t
      → HasType (from_string_at casts s r val) p t
  unfolding from_string_at
  from_string_at-HasType s r val p t (v, there, tag) = elim (Option-cases (get_elem? s.vars r)) [
    | inl q ↦ rw (q, from_string_at) (v, there, tag)
    | inr (u, q) ↦
        let f = from_string (casts u.tag) u.var val s.world in
        let (v', there', tag') =
          modify-HasType s.vars r p u (record { tag = u.tag; var = f.0 }) v q refl there in
        rw (q, from_string_at) (noted-HasType f.2 _ _ p t (v', there', tag' ∙ tag))
  ]

  load_node-HasType :
      (s : Configs El W) (k : Text) (node : Node) (p t : ℕ)
      → HasType s p t
      → HasType (load_node casts emit s k node) p t
  unfolding load_node
  load_node-HasType s k node p t h = elim (Bool-cases (is_empty k)) [
    | inl none' ↦ rw (none', load_node) h
    | inr name ↦ elim (Option-cases (lookup_base s (map to_lower k))) [
      | inl q ↦ rw (name, q, load_node) h
      | inr (r, q) ↦ rw (name, q, load_node) (from_string_at-HasType s r (text_of emit node) p t h)
    ]
  ]

  load_all-HasType :
      (ns : List (Text × Node)) (s : Configs El W) (p t : ℕ)
      → HasType s p t
      → HasType (load_all casts emit s ns) p t
  unfolding load_all
  load_all-HasType [] s p t h = h
  load_all-HasType ((k, node) ∷ ns) s p t h =
      load_all-HasType ns (load_node casts emit s k node) p t (load_node-HasType s k node p t h)

  unfoldable pub after_uses : Configs El W → List (Use El) → Configs El W
  after_uses s [] = s
  after_uses s (declared name t d e ∷ us) = after_uses (lookup_default s name t d e).0 us
  after_uses s (loaded root ∷ us) = after_uses (load_from_yaml casts emit s root) us

  after_uses-HasType :
      (us : List (Use El)) (s : Configs El W) (p t : ℕ)
      → HasType s p t
      → HasType (after_uses s us) p t
  unfolding after_uses load_from_yaml
  after_uses-HasType [] s p t h = h
  after_uses-HasType (declared name u d e ∷ us) s p t h = after_uses-HasType us _ p t (
      rw (lookup_default-outcome s name u d e) (
        outcome-HasType (lookup s name u).0 name u d e (lookup s name u).1 (is_valid_name name) p t
          (lookup-HasType s name u p t h)))
  after_uses-HasType (loaded root ∷ us) s p t h =
      after_uses-HasType us _ p t (load_all-HasType _ _ p t h)

  -- A pointer that `Lookup` gives for a type leads to a variable of that type, then and after any
  -- further declarations of variables, of whatever names and types, and any trees that are loaded.
  pub after_uses-lookup :
      (s : Configs El W) (name : Text) (t p : ℕ) (us : List (Use El))
      → (lookup s name t).1 ≡ some p
      → HasType (after_uses (lookup s name t).0 us) p t
  after_uses-lookup s name t p us h =
      after_uses-HasType us (lookup s name t).0 p t (
        lookup-HasType s name t p t (pointer-HasType s name t p (sym (lookup_same s name t).2 ∙ h)))
