-- ===== src/Tests/Notation.antt =====
-- A small notation in place of YAML: a sequence is its elements, each shifted by one and ended by a
-- zero, and a map is the sequence of its keys and values.
use sylar_server_study.Base.{
  ℕ, zero, suc, ◌+◌, Text, map, List, [], ◌∷◌, ◌++◌, append-nil, append_assoc, Option, none, some,
  length, get_elem?, length-append, ◌≡◌, refl, sym, ap, ◌∙◌,
}
use sylar_server_study.Container.Yaml.{
  Yaml, texts, pair_text, written_pair, pushed, assigned, Reloads,
}

abbrev pub ended : Text → Text
ended t = map suc t ++ 0 ∷ []

abbrev pub encode : List Text → Text
encode [] = []
encode (t ∷ ts) = ended t ++ encode ts

abbrev pub decode : Text → Text → List Text
decode cur [] = []
decode cur (zero ∷ r) = cur ∷ decode [] r
decode cur (suc c ∷ r) = decode (cur ++ c ∷ []) r

abbrev pub in_pairs : List Text → List (Option Text × Text)
in_pairs [] = []
in_pairs (k ∷ []) = []
in_pairs (k ∷ v ∷ ts) = (some k, v) ∷ in_pairs ts

abbrev pub element : List Text → ℕ → Text
element ts i = elim (get_elem? ts i) [ none ↦ [] | some t ↦ t ]

abbrev pub notation : Yaml
notation = record {
  Doc = Text;
  load = λ t. some t;
  emit = λ d. d;
  null = [];
  size = λ d. length (decode [] d);
  at = λ d i. element (decode [] d) i;
  push_back = λ d n. d ++ ended n;
  pairs = λ d. in_pairs (decode [] d);
  assign = λ d k n. d ++ (ended k ++ ended n);
}

decode-ended : (cur t r : Text) → decode cur (map suc t ++ 0 ∷ r) ≡ (cur ++ t) ∷ decode [] r
decode-ended cur [] r = ap (λ z. z ∷ decode [] r) (sym (append-nil cur))
decode-ended cur (c ∷ t) r =
    decode-ended (cur ++ c ∷ []) t r ∙ ap (λ z. z ∷ decode [] r) (append_assoc cur (c ∷ []) t)

pub decode-encode : (ts : List Text) → decode [] (encode ts) ≡ ts
decode-encode [] = refl
decode-encode (t ∷ ts) =
    ap (decode []) (append_assoc (map suc t) (0 ∷ []) (encode ts))
    ∙ (decode-ended [] t (encode ts) ∙ ap (λ z. t ∷ z) (decode-encode ts))

encode-append : (ts us : List Text) → encode (ts ++ us) ≡ encode ts ++ encode us
encode-append [] us = refl
encode-append (t ∷ ts) us =
    ap (λ z. ended t ++ z) (encode-append ts us)
    ∙ sym (append_assoc (ended t) (encode ts) (encode us))

pushed-encode : (ts ns : List Text) → pushed notation (encode ts) ns ≡ encode (ts ++ ns)
pushed-encode ts [] = ap encode (sym (append-nil ts))
pushed-encode ts (n ∷ ns) =
    ap (λ z. pushed notation z ns)
      (ap (λ z. encode ts ++ z) (sym (append-nil (ended n))) ∙ sym (encode-append ts (n ∷ [])))
    ∙ (pushed-encode (ts ++ n ∷ []) ns ∙ ap encode (append_assoc ts (n ∷ []) ns))

abbrev flat : List (Text × Text) → List Text
flat [] = []
flat ((k, n) ∷ ns) = k ∷ n ∷ flat ns

assigned-encode :
    (ts : List Text) (ns : List (Text × Text))
    → assigned notation (encode ts) ns ≡ encode (ts ++ flat ns)
assigned-encode ts [] = ap encode (sym (append-nil ts))
assigned-encode ts ((k, n) ∷ ns) =
    ap (λ z. assigned notation z ns)
      (ap (λ z. encode ts ++ z) (ap (λ z. ended k ++ z) (sym (append-nil (ended n))))
        ∙ sym (encode-append ts (k ∷ n ∷ [])))
    ∙ (assigned-encode (ts ++ k ∷ n ∷ []) ns ∙ ap encode (append_assoc ts (k ∷ n ∷ []) (flat ns)))

in_pairs-flat : (ns : List (Text × Text)) → in_pairs (flat ns) ≡ map (written_pair notation) ns
in_pairs-flat [] = refl
in_pairs-flat ((k, n) ∷ ns) = ap (λ z. (some k, n) ∷ z) (in_pairs-flat ns)

element_at : (pre ts : List Text) (t : Text) → element (pre ++ t ∷ ts) (length pre) ≡ t
element_at [] ts t = refl
element_at (p ∷ pre) ts t = element_at pre ts t

texts_from :
    (d : Text) (pre ts : List Text)
    → decode [] d ≡ pre ++ ts
    → texts notation d (length pre) (length ts) ≡ ts
texts_from d pre [] h = refl
texts_from d pre (t ∷ ts) h =
    let n : length pre + 1 ≡ length (pre ++ t ∷ []) = sym (length-append pre (t ∷ [])) in
    ap (λ z. z ∷ texts notation d (length pre + 1) (length ts))
      (ap (λ z. element z (length pre)) h ∙ element_at pre ts t)
    ∙ ap (λ z. t ∷ z)
        (ap (λ m. texts notation d m (length ts)) n
          ∙ texts_from d (pre ++ t ∷ []) ts (h ∙ sym (append_assoc pre (t ∷ []) ts)))

map_itself : (ts : List Text) → map (λ d. d) ts ≡ ts
map_itself [] = refl
map_itself (t ∷ ts) = ap (λ z. t ∷ z) (map_itself ts)

map-pair_text : (ps : List (Option Text × Text)) → map (pair_text notation) ps ≡ ps
map-pair_text [] = refl
map-pair_text ((k, n) ∷ ps) = ap (λ z. (k, n) ∷ z) (map-pair_text ps)

pub notation-Reloads : Reloads notation
notation-Reloads = record {
  sequence = λ ns.
      let e = ap (decode []) (pushed-encode [] ns) ∙ decode-encode ns in
      record {
        doc = pushed notation [] ns;
        loaded = refl;
        elements =
            ap (λ z. texts notation (pushed notation [] ns) 0 (length z)) e
            ∙ (texts_from (pushed notation [] ns) [] ns e ∙ sym (map_itself ns));
      };
  mapping = λ ns distinct. record {
    doc = assigned notation [] ns;
    loaded = refl;
    members =
        map-pair_text (in_pairs (decode [] (assigned notation [] ns)))
        ∙ (ap (λ z. in_pairs (decode [] z)) (assigned-encode [] ns)
            ∙ (ap in_pairs (decode-encode (flat ns)) ∙ in_pairs-flat ns));
  };
}
