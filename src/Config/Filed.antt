-- ===== src/Config/Filed.antt =====
-- Names that lead to variables of that name, and what `fromString` does to a value.
use sylar_server_study.Base.{
  ℕ, zero, suc, eq_of_some, Bool, true, false, Text, text_eq, text_eq_iff, find, map, to_lower,
  is_lower, is_upper, if◌then◌else◌, List, [], ◌∷◌, none, some, get_elem?, modify, ◌≡◌, ◌≢◌, refl,
  arith, Option-cases, Bool-cases, inl, inr,
}
use sylar_server_study.Config.{Cast, Var, set_value, from_string}
use sylar_server_study.Config.Registry.{Notice, is_valid_name, AnyVar, Configs, note}
use sylar_server_study.Config.Load.{next_value}

-- `==` of the type tells equal values apart from different ones.
abbrev pub IsLawful : {El : ℕ → Type 0} → ((t : ℕ) → Cast (El t)) → Type 0
IsLawful {El} casts = (t : ℕ) (a b : El t) → (casts t).equal a b ≡ true → a ≡ b

module _ {El : ℕ → Type 0} {W : Type 0} where
  abbrev pub is_filed : List (AnyVar El W) → ℕ → Text → Bool
  is_filed vs p k = elim (get_elem? vs p) [ none ↦ false | some v ↦ text_eq v.var.name k ]

  -- Every name in the map leads to a variable of that name.
  abbrev pub IsFiled : Configs El W → Type 0
  IsFiled s = (k : Text) (p : ℕ) → find k s.datas ≡ some p → is_filed s.vars p k ≡ true

  abbrev pub with_value : (v : AnyVar El W) → El v.tag → AnyVar El W
  with_value v x = record { tag = v.tag; var = record v.var { value = x } }

  pub filed_injective :
      (s : Configs El W) (j k : Text) (p : ℕ)
      → IsFiled s
      → find j s.datas ≡ some p
      → find k s.datas ≡ some p
      → j ≡ k
  filed_injective s j k p v a b = elim (Option-cases (get_elem? s.vars p)) [
    | inl q ↦ absurd (ground (arith, v j p a))
    | inr (l, q) ↦
        ground (arith, v j p a, v k p b, text_eq_iff l.var.name j, text_eq_iff l.var.name k)
  ]

-- A valid name has no upper case letter.
pub to_lower-valid : (k : Text) → is_valid_name k ≡ true → map to_lower k ≡ k
unfolding to_lower is_lower is_upper
to_lower-valid [] h = refl
to_lower-valid (c ∷ k) h = ground (arith, to_lower-valid k)

pub value-from_string :
    {T W : Type 0} (c : Cast T) (v : Var T W) (val : Text) (w : W)
    → ((a b : T) → c.equal a b ≡ true → a ≡ b)
    → (from_string c v val w).0 ≡ record v { value = next_value c v.value val }
unfolding from_string set_value
value-from_string c v val w lawful = elim (Option-cases (c.from_str val)) [
  | inl q ↦ rw (q, from_string, next_value) refl
  | inr (x, q) ↦ elim (Bool-cases (c.equal x v.value)) [
    | inl same ↦ rw (q, from_string, next_value) (simp same (rw (lawful x v.value same)))
    | inr differs ↦ rw (q, from_string, next_value) (simp differs refl)
  ]
]

pub is_filed-modify :
    {El : ℕ → Type 0} {W : Type 0} (vs : List (AnyVar El W)) (r i : ℕ) (u w : AnyVar El W)
    (k : Text)
    → get_elem? vs r ≡ some u
    → w.var.name ≡ u.var.name
    → is_filed (modify vs r (λ x. w)) i k ≡ is_filed vs i k
is_filed-modify [] r i u w k h e = refl
is_filed-modify (x ∷ vs) zero zero u w k h e = rw (e, eq_of_some h) refl
is_filed-modify (x ∷ vs) zero (suc i) u w k h e = refl
is_filed-modify (x ∷ vs) (suc r) zero u w k h e = refl
is_filed-modify (x ∷ vs) (suc r) (suc i) u w k h e = is_filed-modify vs r i u w k h e

pub noted :
    {El : ℕ → Type 0} {W : Type 0} (ok : Bool) (s : Configs El W) (n : Notice)
    → ((if ok then s else note s n).vars ≡ s.vars) × ((if ok then s else note s n).datas ≡ s.datas)
noted true s n = (refl, refl)
noted false s n = (refl, refl)

-- The empty key of the root is no variable's name.
pub unnamed : (name : Text) → name ≢ [] → text_eq [] name ≡ false
unfolding text_eq
unnamed [] h = absurd (h refl)
unnamed (c ∷ t) h = refl

pub unfiled :
    {El : ℕ → Type 0} {W : Type 0} (s : Configs El W) (name k : Text) (p : ℕ)
    → find name s.datas ≡ some p
    → find k s.datas ≡ none
    → text_eq k name ≡ false
unfiled s name k p f q = elim (Bool-cases (text_eq k name)) [
  | inl same ↦
      let k=name : k ≡ name = ground (arith, same, text_eq_iff k name) in
      absurd (ground (arith, f, rw k=name at q))
  | inr differs ↦ differs
]

pub other_name :
    (name k : Text) → is_valid_name name ≡ true → is_valid_name k ≡ false → text_eq k name ≡ false
other_name name k good bad = elim (Bool-cases (text_eq k name)) [
  | inl same ↦
      let k=name : k ≡ name = ground (arith, same, text_eq_iff k name) in
      absurd (ground (arith, good, rw k=name at bad))
  | inr differs ↦ differs
]

pub filed_var :
    {El : ℕ → Type 0} {W : Type 0} (s : Configs El W) (k : Text) (r : ℕ)
    → IsFiled s
    → find k s.datas ≡ some r
    → (u : AnyVar El W) × (get_elem? s.vars r ≡ some u)
filed_var s k r f q = elim (Option-cases (get_elem? s.vars r)) [
  | inl b ↦ absurd (ground (arith, f k r q))
  | inr found ↦ found
]
