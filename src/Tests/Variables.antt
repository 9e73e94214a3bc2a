-- ===== src/Tests/Variables.antt =====
-- Configuration variables.
use sylar_server_study.Base.{
  all, length, true, is_lower, ℕ, Text, codes, text_eq, text_eq_iff, find, is_empty, if◌then◌else◌,
  get_elem?, List, [], ◌∷◌, none, some, ◌≡◌, refl, arith, Bool-cases, inl, inr,
}
use sylar_server_study.Config.{Cast, Callback, Var, add_listener, set_value}
use sylar_server_study.Config.Listeners.{set_value-add_listener}
use sylar_server_study.Config.Registry.{AnyVar, Configs, lookup, lookup_default}
use sylar_server_study.Config.Members.{
  Node, scalar, mapping, Members, none_left, member, list_all_member, nodes, valid_only,
  output-list_all_member,
}
use sylar_server_study.Config.Load.{load_from_yaml}
use sylar_server_study.Config.Filed.{IsLawful, IsFiled, with_value}
use sylar_server_study.Config.Values.{load_from_yaml_lem}
use sylar_server_study.Config.Overlap.{
  SetStep, begins, goes_on, set_steps, set_step, begin_call, call_step, set_each, calm, in_turn,
  differ,
}
use sylar_server_study.Config.Overlap.Serial.{IsCalm, set_steps-calm}
use sylar_server_study.Config.Typed.{Use, declared, loaded, HasType, after_uses, after_uses-lookup}
use sylar_server_study.Config.Lookup.{lookup_default-IsFiled}

-- Two types of texts, of which the empty one cannot be read.
abbrev Element : ℕ → Type 0
Element t = Text

abbrev casts : (t : ℕ) → Cast (Element t)
casts t = record {
  equal = text_eq;
  from_str = λ s. if is_empty s then none else some s;
  to_str = λ s. some s;
}

casts-IsLawful : IsLawful casts
casts-IsLawful t a b h = ground (arith, h, text_eq_iff a b)

abbrev emit : Members → Text
emit ms = codes "{}"

-- A listener that keeps the new values.
abbrev keep : Callback Text (List Text)
keep old new w = new ∷ w

abbrev size_var : Var Text (List Text)
size_var = record {
  name = codes "fiber.stack_size";
  description = [];
  value = codes "1";
  cbs = (1, keep) ∷ [];
}

abbrev size : AnyVar Element (List Text)
size = record { tag = 0; var = size_var }

abbrev configs : Configs Element (List Text)
configs = record {
  vars = size ∷ [];
  datas = (codes "fiber.stack_size", 0) ∷ [];
  notices = [];
  world = [];
}

configs-IsFiled : IsFiled configs
unfolding find
configs-IsFiled k p h = elim (Bool-cases (text_eq (codes "fiber.stack_size") k)) [
  | inl a ↦ ground (arith, a)
  | inr a ↦ absurd (ground (arith, a))
]

abbrev root : Node
root = mapping (
    member (codes "fiber")
      (mapping (
        member (codes "stack_size") (scalar (codes "2"))
          (member (codes "Bad") (scalar (codes "3")) none_left)))
      (member (codes "fiber.stack_size") (scalar []) none_left))

set_value-add_listener_example :
    (set_value (casts 0) (add_listener 1 size_var keep).1 (codes "2") []).1
    ≡ codes "2" ∷ codes "2" ∷ []
unfolding text_eq set_value
set_value-add_listener_example =
    set_value-add_listener 1 size_var keep (casts 0) (codes "2") [] (omega arith) refl

output-list_all_member_example :
    (list_all_member [] root (record { output = []; notices = [] })).output
    ≡ valid_only (nodes [] root)
output-list_all_member_example = output-list_all_member [] root

load_from_yaml_lem_example :
    (find (codes "fiber.stack_size") (load_from_yaml casts emit configs root).datas ≡ some 0)
    × (get_elem? (load_from_yaml casts emit configs root).vars 0
        ≡ some (with_value size (codes "2")))
unfolding is_lower find text_eq nodes
load_from_yaml_lem_example =
    load_from_yaml_lem casts emit casts-IsLawful configs root (codes "fiber.stack_size") 0 size
      configs-IsFiled refl (λ e. cc) refl refl

lookup_default-IsFiled_example :
    IsFiled (lookup_default configs (codes "a") 1 (codes "x") []).0
    × (get_elem? (lookup_default configs (codes "a") 1 (codes "x") []).0.vars 0 ≡ some size)
lookup_default-IsFiled_example =
    lookup_default-IsFiled configs (codes "a") 1 (codes "x") [] 0 size configs-IsFiled refl

-- A name of that variable is declared again with another type, and a tree is loaded.
abbrev uses : List (Use Element)
uses = declared (codes "fiber.stack_size") 1 (codes "x") [] ∷ loaded root ∷ []

after_uses-lookup_example :
    HasType (after_uses casts emit (lookup configs (codes "fiber.stack_size") 0).0 uses) 0 0
unfolding lookup find text_eq
after_uses-lookup_example =
    after_uses-lookup casts emit configs (codes "fiber.stack_size") 0 0 uses refl

-- The second of two calls overtakes the first: the listener is told last of the value that does not
-- stay.
abbrev overtaken : List (SetStep Text)
overtaken =
    begins (codes "2")
    ∷ goes_on 0
    ∷ begins (codes "3")
    ∷ goes_on 1
    ∷ goes_on 0
    ∷ goes_on 1
    ∷ goes_on 1
    ∷ goes_on 0
    ∷ []

overtaken_value :
    let s = set_steps (casts 0) (calm size_var [] []) overtaken in
    (s.var.value ≡ codes "2") × (s.told ≡ (codes "1", codes "2") ∷ (codes "1", codes "3") ∷ [])
unfolding set_steps set_step begin_call call_step text_eq
overtaken_value = (refl, refl)

set_steps-calm_example :
    (all (differ (casts 0)) (set_steps (casts 0) (calm size_var [] []) overtaken).told ≡ true)
    × IsCalm
        (casts 0)
        (set_steps
          (casts 0)
          (calm size_var [] [])
          (in_turn (length size_var.cbs) (codes "2" ∷ codes "2" ∷ [])))
        (set_each (casts 0) size_var (codes "2" ∷ codes "2" ∷ []) [])
set_steps-calm_example = set_steps-calm (casts 0) size_var [] overtaken (codes "2" ∷ codes "2" ∷ [])
