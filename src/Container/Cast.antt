-- ===== src/Container/Cast.antt =====
-- sylar/config.h: the specialisations of `LexicalCast` for `std::vector`, `std::list`, `std::set`,
-- `std::unordered_set`, `std::map` and `std::unordered_map`, over a cast of the elements. `none` stands
-- for an exception, of yaml-cpp or of the cast of an element.
use sylar_server_study.Base.{
  ◌&&◌, Bool, true, false, Text, text_eq, List, [], ◌∷◌, ◌++◌, Option, some, ◌>>=◌,
}
use sylar_server_study.Config.{Cast}
use sylar_server_study.Container.Yaml.{Yaml}
use sylar_server_study.Container.Order.{text_less}
use sylar_server_study.Container.Sorted.{set_insert}
use sylar_server_study.Container.Unordered.{bucket_insert}
use sylar_server_study.Container.Loops.{each_element, each_pair, push_each, assign_each}

-- `std::vector::push_back`
abbrev pub append_one : {T : Type 0} → List T → T → List T
append_one vec x = vec ++ x ∷ []

abbrev pub itself : {T : Type 0} → T → T
itself x = x

abbrev pub key_of : {T : Type 0} → Text × T → Text
key_of (k, x) = k

-- The keys of `std::map` are compared with `operator<` of `std::string`.
abbrev pub key_less : {T : Type 0} → Text × T → Text × T → Bool
key_less p q = text_less (key_of p) (key_of q)

-- `operator==` of the ordered containers.
abbrev pub list_eq : {T : Type 0} → (T → T → Bool) → List T → List T → Bool
list_eq eq [] [] = true
list_eq eq [] (b ∷ bs) = false
list_eq eq (a ∷ xs) [] = false
list_eq eq (a ∷ xs) (b ∷ bs) = eq a b && list_eq eq xs bs

module _ (y : Yaml) {T : Type 0} (c : Cast T) where
  open y use {load, emit, null, size, pairs}

  unfoldable pub vector_from_str : Text → Option (List T)
  vector_from_str v = load v >>= λ node. each_element y c append_one node 0 (size node) []

  unfoldable pub vector_to_str : List T → Option Text
  vector_to_str v = push_each y c null v >>= λ node. some (emit node)

  unfoldable pub list_from_str : Text → Option (List T)
  list_from_str v = load v >>= λ node. each_element y c append_one node 0 (size node) []

  unfoldable pub list_to_str : List T → Option Text
  list_to_str v = push_each y c null v >>= λ node. some (emit node)

  unfoldable pub set_from_str : (T → T → Bool) → Text → Option (List T)
  set_from_str less v = load v >>= λ node. each_element y c (set_insert less) node 0 (size node) []

  unfoldable pub set_to_str : List T → Option Text
  set_to_str v = push_each y c null v >>= λ node. some (emit node)

  unfoldable pub unordered_set_from_str : Text → Option (List T)
  unordered_set_from_str v =
      load v >>= λ node. each_element y c (bucket_insert itself c.equal) node 0 (size node) []

  unfoldable pub unordered_set_to_str : List T → Option Text
  unordered_set_to_str v = push_each y c null v >>= λ node. some (emit node)

  unfoldable pub map_from_str : Text → Option (List (Text × T))
  map_from_str v = load v >>= λ node. each_pair y c (set_insert key_less) (pairs node) []

  unfoldable pub map_to_str : List (Text × T) → Option Text
  map_to_str v = assign_each y c null v >>= λ node. some (emit node)

  unfoldable pub unordered_map_from_str : Text → Option (List (Text × T))
  unordered_map_from_str v =
      load v >>= λ node. each_pair y c (bucket_insert key_of text_eq) (pairs node) []

  unfoldable pub unordered_map_to_str : List (Text × T) → Option Text
  unordered_map_to_str v = assign_each y c null v >>= λ node. some (emit node)

  -- The two casts of a `std::vector` and of a `std::set`, as `ConfigVar` takes them.
  abbrev pub vector_cast : Cast (List T)
  vector_cast = record {
    equal = list_eq c.equal;
    from_str = vector_from_str;
    to_str = vector_to_str;
  }

  abbrev pub set_cast : (T → T → Bool) → Cast (List T)
  set_cast less = record {
    equal = list_eq c.equal;
    from_str = set_from_str less;
    to_str = set_to_str;
  }
