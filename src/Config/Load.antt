-- ===== src/Config/Load.antt =====
-- sylar/config.cc: `Config::LoadFromYaml`.
use sylar_server_study.Base.{
  ℕ, Text, text_eq, is_empty, map, to_lower, if◌then◌else◌, List, [], ◌∷◌, ◌++◌, none, some,
}
use sylar_server_study.Config.{Cast}
use sylar_server_study.Config.Registry.{Configs, lookup_base, from_string_at}
use sylar_server_study.Config.Members.{Node, scalar, mapping, other, Members, list_all_member}

-- The value after `fromString`.
abbrev pub next_value : {T : Type 0} → Cast T → T → Text → T
next_value c x val = elim (c.from_str val) [ none ↦ x | some y ↦ y ]

module _ (emit : Members → Text) where
  -- `i.second.Scalar()`, or what `<<` writes.
  abbrev pub text_of : Node → Text
  text_of (scalar t) = t
  text_of (mapping ms) = emit ms
  text_of (other t) = t

  -- The last text of that name that can be cast, or what was there.
  abbrev pub configured : {T : Type 0} → Cast T → T → Text → List (Text × Node) → T
  configured c x name [] = x
  configured c x name ((k, node) ∷ ns) =
      configured c (if text_eq k name then next_value c x (text_of node) else x) name ns

module _ {El : ℕ → Type 0} {W : Type 0} (casts : (t : ℕ) → Cast (El t))
    (emit : Members → Text) where
  -- The body of the loop over `all_nodes`.
  unfoldable pub load_node : Configs El W → Text → Node → Configs El W
  load_node s k node = if is_empty k then s else elim (lookup_base s (map to_lower k)) [
    | none ↦ s
    | some p ↦ from_string_at casts s p (text_of emit node)
  ]

  unfoldable pub load_all : Configs El W → List (Text × Node) → Configs El W
  load_all s [] = s
  load_all s ((k, node) ∷ ns) = load_all (load_node s k node) ns

  unfoldable pub load_from_yaml : Configs El W → Node → Configs El W
  load_from_yaml s root =
      let all_nodes = list_all_member [] root (record { output = []; notices = [] }) in
      load_all (record s { notices = s.notices ++ all_nodes.notices }) all_nodes.output
