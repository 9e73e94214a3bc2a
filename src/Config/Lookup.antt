-- ===== src/Config/Lookup.antt =====
-- The two `Config::Lookup`.
use sylar_server_study.Base.{
  ℕ, Bool, true, false, ◌==◌, Text, text_eq, text_eq_refl, find, assign, find-assign, if◌then◌else◌,
  List, [], ◌∷◌, ◌++◌, Option, none, some, get_elem?, get_elem?-append_new, get_elem?-append_old,
  get_elem?-lt, length, suc, zero, ◌≡◌, refl, sym, ap, ◌∙◌, arith, Option-cases, Bool-cases, inl,
  inr,
}
use sylar_server_study.Config.{new_var}
use sylar_server_study.Config.Registry.{
  name_exists, name_invalid, is_valid_name, AnyVar, Configs, note, cast_pointer, lookup,
  lookup_default,
}
use sylar_server_study.Config.Filed.{is_filed, IsFiled, to_lower-valid}

module _ {El : ℕ → Type 0} {W : Type 0} where
  abbrev pub created : Configs El W → Text → (t : ℕ) → El t → Text → Configs El W
  created s name t d e = record s {
    vars = s.vars ++ (record { tag = t; var = new_var name d e }) ∷ [];
    datas = assign name (length s.vars) s.datas;
  }

  -- The pointer of that type, from the two fields that the search reads.
  abbrev pub typed : List (AnyVar El W) → ℕ → ℕ → Option ℕ
  typed vs t p = elim (get_elem? vs p) [
    | none ↦ none
    | some v ↦ if v.tag == t then some p else none
  ]

  abbrev pub pointer : List (AnyVar El W) → List (Text × ℕ) → Text → ℕ → Option ℕ
  pointer vs datas name t = elim (find name datas) [ none ↦ none | some p ↦ typed vs t p ]

  cast_pointer_same :
      (s : Configs El W) (name : Text) (t p : ℕ)
      → ((cast_pointer s name t p).0.vars ≡ s.vars)
        × ((cast_pointer s name t p).0.datas ≡ s.datas)
        × ((cast_pointer s name t p).1 ≡ typed s.vars t p)
  cast_pointer_same s name t p = elim (Option-cases (get_elem? s.vars p)) [
    | inl q ↦ rw (q, cast_pointer, typed) (refl, refl, refl)
    | inr (v, q) ↦ elim (Bool-cases (v.tag == t)) [
      | inl yes' ↦ rw (q, cast_pointer, typed) (simp yes' (refl, refl, refl))
      | inr no' ↦ rw (q, cast_pointer, typed) (simp no' (refl, refl, refl))
    ]
  ]

  -- Looking for a variable changes nothing but the notices.
  pub lookup_same :
      (s : Configs El W) (name : Text) (t : ℕ)
      → ((lookup s name t).0.vars ≡ s.vars)
        × ((lookup s name t).0.datas ≡ s.datas)
        × ((lookup s name t).1 ≡ pointer s.vars s.datas name t)
  unfolding lookup
  lookup_same s name t = elim (Option-cases (find name s.datas)) [
    | inl q ↦ rw (q, lookup, pointer) (refl, refl, refl)
    | inr (p, q) ↦ rw (q, lookup, pointer) (cast_pointer_same s name t p)
  ]

  -- What `lookup_default` does where it finds a variable of the type, where the name is invalid, and
  -- otherwise.
  abbrev pub outcome :
      Configs El W → Text → (t : ℕ) → El t → Text → Option ℕ → Bool → Configs El W × Option ℕ
  outcome s name t d e (some p) valid = (note s (name_exists name), some p)
  outcome s name t d e none false = (note s (name_invalid name), none)
  outcome s name t d e none true = (created s name t d e, some (length s.vars))

  pub lookup_default-outcome :
      (s : Configs El W) (name : Text) (t : ℕ) (d : El t) (e : Text)
      → lookup_default s name t d e
        ≡ outcome (lookup s name t).0 name t d e (lookup s name t).1 (is_valid_name name)
  unfolding lookup_default
  lookup_default-outcome s name t d e = elim (Option-cases (lookup s name t).1) [
    | inr (p, q) ↦ rw (q, lookup_default) refl
    | inl q ↦ elim (Bool-cases (is_valid_name name)) [
      | inl good ↦ rw (q, lookup_default) (simp good refl)
      | inr bad ↦ rw (q, lookup_default) (simp bad refl)
    ]
  ]

  pointer-created :
      (s : Configs El W) (name : Text) (t : ℕ) (d : El t) (e : Text)
      → pointer (created s name t d e).vars (created s name t d e).datas name t
        ≡ some (length s.vars)
  pointer-created s name t d e = ground (
    arith,
    find-assign name name (length s.vars) s.datas,
    text_eq_refl name,
    get_elem?-append_new s.vars (record { tag = t; var = new_var name d e }),
  )

  -- The variables and the map after each outcome lead to its pointer.
  outcome-pointer :
      (s : Configs El W) (name : Text) (t : ℕ) (d : El t) (e : Text) (found : Option ℕ)
      (valid : Bool)
      → found ≡ pointer s.vars s.datas name t
      → pointer
          (outcome s name t d e found valid).0.vars
          (outcome s name t d e found valid).0.datas
          name
          t
        ≡ (outcome s name t d e found valid).1
  outcome-pointer s name t d e (some p) valid h = sym h
  outcome-pointer s name t d e none false h = sym h
  outcome-pointer s name t d e none true h = pointer-created s name t d e

  -- Whatever the name and the type, looking a variable up after `Lookup` with a default value gives
  -- the pointer that that returned, or none where it threw.
  pub lookup-lookup_default :
      (s : Configs El W) (name : Text) (t : ℕ) (d : El t) (e : Text)
      → (lookup (lookup_default s name t d e).0 name t).1 ≡ (lookup_default s name t d e).1
  lookup-lookup_default s name t d e =
      let (vs, ds, found) = lookup_same s name t in
      let s' = (lookup s name t).0 in
      rw (lookup_default-outcome s name t d e) (
        (lookup_same (outcome s' name t d e (lookup s name t).1 (is_valid_name name)).0 name t).2
        ∙ outcome-pointer s' name t d e (lookup s name t).1 (is_valid_name name)
            (found ∙ sym (rw (vs, ds))))

  is_filed-append :
      (vs : List (AnyVar El W)) (v : AnyVar El W) (p : ℕ) (k : Text)
      → is_filed vs p k ≡ true
      → is_filed (vs ++ v ∷ []) p k ≡ true
  is_filed-append [] v p k h = cc
  is_filed-append (u ∷ vs) v zero k h = h
  is_filed-append (u ∷ vs) v (suc p) k h = is_filed-append vs v p k h

  created-IsFiled :
      (s : Configs El W) (name : Text) (t : ℕ) (d : El t) (e : Text)
      → is_valid_name name ≡ true
      → IsFiled s
      → IsFiled (created s name t d e)
  created-IsFiled s name t d e good f k p q = elim (Bool-cases (text_eq name k)) [
    | inl same ↦ ground (
      arith,
      find-assign name k (length s.vars) s.datas,
      get_elem?-append_new s.vars new,
      to_lower-valid name good,
      same,
    )
    | inr other ↦
        ground
          (arith, find-assign name k (length s.vars) s.datas, f k p, is_filed-append s.vars new p k)
  ]
    where
      new : AnyVar El W
      new = record { tag = t; var = new_var name d e }

  outcome-IsFiled :
      (s : Configs El W) (name : Text) (t : ℕ) (d : El t) (e : Text) (found : Option ℕ)
      (valid : Bool)
      → is_valid_name name ≡ valid
      → IsFiled s
      → IsFiled (outcome s name t d e found valid).0
  outcome-IsFiled s name t d e (some p) valid good f = f
  outcome-IsFiled s name t d e none false good f = f
  outcome-IsFiled s name t d e none true good f = created-IsFiled s name t d e good f

  outcome-get :
      (s : Configs El W) (name : Text) (t : ℕ) (d : El t) (e : Text) (found : Option ℕ)
      (valid : Bool) (p : ℕ) (v : AnyVar El W)
      → get_elem? s.vars p ≡ some v
      → get_elem? (outcome s name t d e found valid).0.vars p ≡ some v
  outcome-get s name t d e (some r) valid p v h = h
  outcome-get s name t d e none false p v h = h
  outcome-get s name t d e none true p v h =
      get_elem?-append_old s.vars _ p (get_elem?-lt s.vars p v h) ∙ h

  -- `Lookup` with a default value keeps the map leading from every name to a variable of that name,
  -- and every variable that was there, whatever the name and the type: a name of another type gets a
  -- new variable, and the pointers to the old one stay good.
  pub lookup_default-IsFiled :
      (s : Configs El W) (name : Text) (t : ℕ) (d : El t) (e : Text) (p : ℕ) (v : AnyVar El W)
      → IsFiled s
      → get_elem? s.vars p ≡ some v
      → IsFiled (lookup_default s name t d e).0
        × (get_elem? (lookup_default s name t d e).0.vars p ≡ some v)
  lookup_default-IsFiled s name t d e p v f h =
      let (vs, ds, found) = lookup_same s name t in
      let s' = (lookup s name t).0 in
      let f' : IsFiled s' =
        λ k q a. ap (λ us. is_filed us q k) vs ∙ f k q (ap (λ m. find k m) (sym ds) ∙ a) in
      rw (lookup_default-outcome s name t d e) (
        outcome-IsFiled s' name t d e (lookup s name t).1 (is_valid_name name) refl f',
        outcome-get s' name t d e (lookup s name t).1 (is_valid_name name) p v
            (ap (λ us. get_elem? us p) vs ∙ h),
      )
