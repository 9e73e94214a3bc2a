-- ===== src/Config/Registry.antt =====
-- sylar/config.h and sylar/config.cc: the static part of `Config`, a map from names to variables of
-- any type. `El` gives each type that `typeid` tells apart a number; a variable behind a shared
-- pointer has a place in the list of all variables. Lines that go to the root logger are kept as
-- notices.
use sylar_server_study.Base.{
  ℕ, Bool, not, ◌&&◌, ◌||◌, Text, find, assign, is_lower, leb, if◌then◌else◌, ◌==◌, List, [], ◌∷◌,
  ◌++◌, Option, none, some, get_elem?, modify, length, all,
}
use sylar_server_study.Config.{Cast, Var, new_var, from_string}

-- "abcdefghijklmnopqrstuvwxyz._0123456789"
abbrev pub is_name_char : ℕ → Bool
is_name_char c = is_lower c || (c == b'.' || (c == b'_' || (leb b'0' c && leb c b'9')))

-- `find_first_not_of` finds nothing.
abbrev pub is_valid_name : Text → Bool
is_valid_name name = all is_name_char name

pub data Notice : Type 0 where
  name_exists : Text → Notice
  name_invalid : Text → Notice
  wrong_type : Text → ℕ → ℕ → Notice
  not_cast : Text → Notice

-- A `ConfigVarBase` with the type of its `ConfigVar`.
pub record AnyVar (El : ℕ → Type 0) (W : Type 0) : Type 0 where
  pub tag : ℕ
  pub var : Var (El tag) W

-- All variables, `s_datas`, the notices, and what listeners change.
pub record Configs (El : ℕ → Type 0) (W : Type 0) : Type 0 where
  pub vars : List (AnyVar El W)
  pub datas : List (Text × ℕ)
  pub notices : List Notice
  pub world : W

-- The loop of `Visit`.
abbrev visit_each : {A : Type 0} → List (Text × ℕ) → (ℕ → A → A) → A → A
visit_each [] cb a = a
visit_each ((k, p) ∷ datas) cb a = visit_each datas cb (cb p a)

module _ {El : ℕ → Type 0} {W : Type 0} where
  abbrev pub note : Configs El W → Notice → Configs El W
  note s n = record s { notices = s.notices ++ n ∷ [] }

  -- `LookupBase`
  abbrev pub lookup_base : Configs El W → Text → Option ℕ
  lookup_base s name = find name s.datas

  -- The `dynamic_pointer_cast` to the type `t`, with its warning.
  abbrev pub cast_pointer : Configs El W → Text → ℕ → ℕ → Configs El W × Option ℕ
  cast_pointer s name t p = elim (get_elem? s.vars p) [
    | none ↦ (s, none)
    | some v ↦ if v.tag == t then (s, some p) else (note s (wrong_type name t v.tag), none)
  ]

  -- `Lookup<T>(name)`
  unfoldable pub lookup : Configs El W → Text → ℕ → Configs El W × Option ℕ
  lookup s name t = elim (lookup_base s name) [
    | none ↦ (s, none)
    | some p ↦ cast_pointer s name t p
  ]

  -- `Lookup<T>(name, default_value, description)`; no pointer where it throws.
  unfoldable pub lookup_default :
      Configs El W → Text → (t : ℕ) → El t → Text → Configs El W × Option ℕ
  unfolding lookup
  lookup_default s name t default_value description =
      let (s', tmp) = lookup s name t in
      elim tmp [
        | some p ↦ (note s' (name_exists name), some p)
        | none ↦ if not (is_valid_name name) then (note s' (name_invalid name), none) else (
          record s' {
            vars =
                s'.vars ++ (record { tag = t; var = new_var name default_value description }) ∷ [];
            datas = assign name (length s'.vars) s'.datas;
          },
          some (length s'.vars),
        )
      ]

  -- `Visit`: the callback is given every variable; it changes what it likes, but not the map.
  unfoldable pub visit_vars : {A : Type 0} → Configs El W → (ℕ → A → A) → A → A
  visit_vars s cb a = visit_each s.datas cb a

  -- `var->fromString(val)`
  module _ (casts : (t : ℕ) → Cast (El t)) where
    abbrev pub any_from_string : AnyVar El W → Text → W → AnyVar El W × W × Bool
    any_from_string v val w =
        let (var, w', ok) = from_string (casts v.tag) v.var val w in
        (record { tag = v.tag; var = var }, w', ok)

    unfoldable pub from_string_at : Configs El W → ℕ → Text → Configs El W
    unfolding from_string
    from_string_at s p val = elim (get_elem? s.vars p) [
      | none ↦ s
      | some v ↦
          let (v', w', ok) = any_from_string v val s.world in
          let s' = record s { vars = modify s.vars p (λ u. v'); world = w' } in
          if ok then s' else note s' (not_cast val)
    ]
