-- ===== src/Container/RoundTrip.antt =====
-- A container that is written as YAML and read again. What is assumed of yaml-cpp is `Reloads`, and of
-- an element that its own text survives being loaded and written.
use sylar_server_study.Base.{
  Bool, Text, map, List, [], ◌∷◌, Option, some, ◌>>=◌, ◌≡◌, refl, ap, ◌∙◌,
}
use sylar_server_study.Config.{Cast}
use sylar_server_study.Container.Yaml.{
  Yaml, Reloads, DistinctKeys, Lacks, written_pair, pushed, assigned,
}
use sylar_server_study.Container.Order.{IsWeakOrder}
use sylar_server_study.Container.Sorted.{Ascending, insert_all-same}
use sylar_server_study.Container.Loops.{
  cast_all, cast_pair, load_written, load_member, push_each, push_each_lem, assign_each,
  assign_each_lem,
}
use sylar_server_study.Container.Cast.{vector_from_str, vector_to_str, set_from_str, set_to_str}
use sylar_server_study.Container.Views.{
  elements, members, vector_from_str-elements, set_from_str-elements,
}

module _ (y : Yaml) {T : Type 0} (c : Cast T) where
  open y use {Doc, load, emit, null}

  -- The element can be written, its text loaded, and what `<<` makes of that is cast to the element.
  pub record Survives (x : T) : Type 0 where
    pub doc : Doc
    pub written : load_written y c x ≡ some doc
    pub back : c.from_str (emit doc) ≡ some x

  abbrev pub EachSurvives : List T → Type 0
  EachSurvives [] = Unit
  EachSurvives (x ∷ xs) = Survives x × EachSurvives xs

  abbrev pub EachValueSurvives : List (Text × T) → Type 0
  EachValueSurvives [] = Unit
  EachValueSurvives ((k, x) ∷ xs) = Survives x × EachValueSurvives xs

  record Docs (xs : List T) : Type 0 where
    docs : List Doc
    written : cast_all (load_written y c) xs ≡ some docs
    back : cast_all c.from_str (map emit docs) ≡ some xs

  write_all : (xs : List T) → EachSurvives xs → Docs xs
  write_all [] s = record { docs = []; written = refl; back = refl }
  write_all (x ∷ xs) (s, ss) =
      let d = write_all xs ss in
      record {
        docs = s.doc ∷ d.docs;
        written = rw (s.written, d.written) refl;
        back = rw (s.back, d.back) refl;
      }

  record MemberDocs (xs : List (Text × T)) : Type 0 where
    docs : List (Text × Doc)
    written : cast_all (load_member y c) xs ≡ some docs
    back : cast_all (cast_pair y c) (map (written_pair y) docs) ≡ some xs
    lacks : (k : Text) → Lacks k xs → Lacks k docs
    distinct : DistinctKeys xs → DistinctKeys docs

  write_all_members : (xs : List (Text × T)) → EachValueSurvives xs → MemberDocs xs
  write_all_members [] s = record {
    docs = [];
    written = refl;
    back = refl;
    lacks = λ k l. tt;
    distinct = λ l. tt;
  }
  write_all_members ((k, x) ∷ xs) (s, ss) =
      let d = write_all_members xs ss in
      record {
        docs = (k, s.doc) ∷ d.docs;
        written = rw (s.written, d.written) refl;
        back = rw (s.back, d.back) refl;
        lacks = λ k' (n, l). (n, d.lacks k' l);
        distinct = λ (l, ls). (d.lacks k l, d.distinct ls);
      }

  module _ (reloads : Reloads y) where
    -- What is written has the elements again.
    pub record Reread {X : Type 0} (to : Option Text) (from : Text → Option (List X)) (xs : List X)
        : Type 0 where
      pub text : Text
      pub written : to ≡ some text
      pub back : from text ≡ some xs

    read_again :
        (xs : List T)
        → EachSurvives xs
        → Reread (push_each y c null xs >>= λ node. some (emit node)) (elements y c) xs
    read_again xs s =
        let d = write_all xs s in
        let r = reloads.sequence d.docs in
        record {
          text = emit (pushed y null d.docs);
          written = rw (push_each_lem y c null xs, d.written) refl;
          back = rw (r.loaded, r.elements) d.back;
        }

    pub read_members_again :
        (xs : List (Text × T))
        → EachValueSurvives xs
        → DistinctKeys xs
        → Reread (assign_each y c null xs >>= λ node. some (emit node)) (members y c) xs
    read_members_again xs s distinct =
        let d = write_all_members xs s in
        let r = reloads.mapping d.docs (d.distinct distinct) in
        record {
          text = emit (assigned y null d.docs);
          written = rw (assign_each_lem y c null xs, d.written) refl;
          back = rw (r.loaded, r.members) d.back;
        }

    -- A `std::vector` that is written as YAML and read again is the same, where writing a sequence
    -- and loading it gives its elements, and the text of each element survives being loaded,
    -- written and cast.
    pub vector_from_str-vector_to_str :
        (xs : List T) → EachSurvives xs → (vector_to_str y c xs >>= vector_from_str y c) ≡ some xs
    unfolding vector_to_str
    vector_from_str-vector_to_str xs s =
        let r = read_again xs s in rw r.written (vector_from_str-elements y c r.text ∙ r.back)

    -- A `std::set` that is written as YAML and read again is the same, where `operator<` is a strict
    -- weak ordering and the set is ascending, writing a sequence and loading it gives its elements,
    -- and the text of each element survives being loaded, written and cast.
    pub set_from_str-set_to_str :
        (less : T → T → Bool) (xs : List T)
        → IsWeakOrder less
        → Ascending less xs
        → EachSurvives xs
        → (set_to_str y c xs >>= set_from_str y c less) ≡ some xs
    unfolding set_to_str
    set_from_str-set_to_str less xs order a s =
        let r = read_again xs s in
        rw r.written (
          set_from_str-elements y c less r.text
          ∙ (rw r.back (ap some (insert_all-same less order xs a))))
