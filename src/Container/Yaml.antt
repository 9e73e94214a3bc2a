-- ===== src/Container/Yaml.antt =====
-- What sylar/config.h calls of yaml-cpp, and what it relies on.
use sylar_server_study.Base.{ℕ, zero, suc, ◌+◌, Text, List, [], ◌∷◌, map, Option, some, ◌≡◌, ◌≢◌}

-- `Doc` is `YAML::Node`. `none` of `load` is an exception, `none` in `pairs` a key without a text,
-- for which `Scalar()` throws.
pub record Yaml : Type 1 where
  pub Doc : Type 0
  pub load : Text → Option Doc
  pub emit : Doc → Text
  pub null : Doc
  pub size : Doc → ℕ
  pub at : Doc → ℕ → Doc
  pub push_back : Doc → Doc → Doc
  pub pairs : Doc → List (Option Text × Doc)
  pub assign : Doc → Text → Doc → Doc

-- The key is not among those of the list.
abbrev pub Lacks : {A : Type 0} → Text → List (Text × A) → Type 0
Lacks k [] = Unit
Lacks k ((k', a) ∷ ps) = (k ≢ k') × Lacks k ps

abbrev pub DistinctKeys : {A : Type 0} → List (Text × A) → Type 0
DistinctKeys [] = Unit
DistinctKeys ((k, a) ∷ ps) = Lacks k ps × DistinctKeys ps

module _ (y : Yaml) where
  open y use {Doc, load, emit, null, size, at, push_back, pairs, assign}

  -- What `ss << node[i]` writes for `left` elements from the `i`th on.
  abbrev pub texts : Doc → ℕ → ℕ → List Text
  texts node i zero = []
  texts node i (suc left) = emit (at node i) ∷ texts node (i + 1) left

  abbrev pub pair_text : Option Text × Doc → Option Text × Text
  pair_text (k, n) = (k, emit n)

  abbrev pub written_pair : Text × Doc → Option Text × Text
  written_pair (k, n) = (some k, emit n)

  abbrev pub pushed : Doc → List Doc → Doc
  pushed node [] = node
  pushed node (n ∷ ns) = pushed (push_back node n) ns

  abbrev pub assigned : Doc → List (Text × Doc) → Doc
  assigned node [] = node
  assigned node ((k, n) ∷ ns) = assigned (assign node k n) ns

  -- What is loaded from a text, seen through its elements.
  pub record LoadsSequence (t : Text) (ts : List Text) : Type 0 where
    pub doc : Doc
    pub loaded : load t ≡ some doc
    pub elements : texts doc 0 (size doc) ≡ ts

  pub record LoadsMap (t : Text) (ts : List (Option Text × Text)) : Type 0 where
    pub doc : Doc
    pub loaded : load t ≡ some doc
    pub members : map pair_text (pairs doc) ≡ ts

  -- A sequence built with `push_back`, and a map built by assignments to distinct keys, are the same
  -- when they are written and loaded again.
  pub record Reloads : Type 0 where
    pub sequence : (ns : List Doc) → LoadsSequence (emit (pushed null ns)) (map emit ns)
    pub mapping :
        (ns : List (Text × Doc))
        → DistinctKeys ns
        → LoadsMap (emit (assigned null ns)) (map written_pair ns)
