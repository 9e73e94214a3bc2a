-- ===== src/Config.antt =====
-- sylar/config.h: `ConfigVarBase` and `ConfigVar`. `W` is what the listeners change, which is not the
-- variable itself; they throw nothing. The locks are left out here, and are in Config/Overlap.
pub mod Listeners
pub mod Registry
pub mod Members
pub mod Load
pub mod Filed
pub mod Values
pub mod Lookup
pub mod Typed
pub mod Overlap
use sylar_server_study.Base.{
  ℕ, ◌+◌, ◌%◌, ◌^◌, Bool, true, false, not, Text, codes, map, to_lower, if◌then◌else◌, ◌==◌, ltb,
  List, [], ◌∷◌, Option, none, some,
}

-- `operator==` and the two casts of a type, `FromStr` and `ToStr`; `none` stands for an exception.
pub record Cast (T : Type 0) : Type 0 where
  pub equal : T → T → Bool
  pub from_str : Text → Option T
  pub to_str : T → Option Text

-- `on_change_cb`, called with the old and the new value, for a listener that does not throw.
abbrev pub Callback : Type 0 → Type 0 → Type 0
Callback T W = T → T → W → W

pub record Var (T W : Type 0) : Type 0 where
  pub name : Text
  pub description : Text
  pub value : T
  pub cbs : List (ℕ × Callback T W)

-- The constructor, with that of `ConfigVarBase`.
abbrev pub new_var : {T W : Type 0} → Text → T → Text → Var T W
new_var name default_value description = record {
  name = map to_lower name;
  description = description;
  value = default_value;
  cbs = [];
}

-- `m_cbs[key] = cb` in a map that is ordered by its keys.
unfoldable pub put : {A : Type 0} → ℕ → A → List (ℕ × A) → List (ℕ × A)
put key cb [] = (key, cb) ∷ []
put key cb ((k, c) ∷ cs) =
    if ltb key k
    then (key, cb) ∷ (k, c) ∷ cs
    else if key == k
    then (key, cb) ∷ cs
    else (k, c) ∷ put key cb cs

unfoldable pub erase : {A : Type 0} → ℕ → List (ℕ × A) → List (ℕ × A)
erase key [] = []
erase key ((k, c) ∷ cs) = if k == key then cs else (k, c) ∷ erase key cs

unfoldable pub at_key : {A : Type 0} → ℕ → List (ℕ × A) → Option A
at_key key [] = none
at_key key ((k, c) ∷ cs) = if k == key then some c else at_key key cs

module _ {T W : Type 0} where
  -- The loop over `m_cbs`.
  unfoldable pub call_all : List (ℕ × Callback T W) → T → T → W → W
  call_all [] old new w = w
  call_all ((k, cb) ∷ cs) old new w = call_all cs old new (cb old new w)

  -- `addListener`; `s_fun_id` is static, one for each type.
  unfoldable pub add_listener : ℕ → Var T W → Callback T W → ℕ × Var T W
  add_listener s_fun_id v cb =
      let id = (s_fun_id + 1) % 2 ^ 64 in (id, record v { cbs = put id cb v.cbs })

  unfoldable pub del_listener : ℕ → Var T W → Var T W
  del_listener key v = record v { cbs = erase key v.cbs }

  unfoldable pub get_listener : ℕ → Var T W → Option (Callback T W)
  get_listener key v = at_key key v.cbs

  unfoldable pub clear_listener : Var T W → Var T W
  clear_listener v = record v { cbs = [] }

  -- `setValue`
  unfoldable pub set_value : Cast T → Var T W → T → W → Var T W × W
  unfolding call_all
  set_value c v x w =
      if c.equal x v.value then (v, w) else (record v { value = x }, call_all v.cbs v.value x w)

  -- `fromString`: whether the text could be cast. With listeners that throw nothing, `FromStr` is the
  -- one source of the exceptions that it catches.
  unfoldable pub from_string : Cast T → Var T W → Text → W → Var T W × W × Bool
  unfolding set_value
  from_string c v val w = elim (c.from_str val) [
    | none ↦ (v, w, false)
    | some x ↦ let (v', w') = set_value c v x w in (v', w', true)
  ]

  -- `toString`
  unfoldable pub to_string : Cast T → Var T W → Text
  to_string c v = elim (c.to_str v.value) [ none ↦ codes "..." | some t ↦ t ]
