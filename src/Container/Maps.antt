-- ===== src/Container/Maps.antt =====
-- The keys of `std::map` and `std::unordered_map`, and both written as YAML and read again.
use sylar_server_study.Base.{
  true, Text, text_eq, text_eq_iff, List, [], ◌∷◌, some, ◌>>=◌, ◌≡◌, refl, sym, ap, subst, Option,
  ◌∙◌, arith,
}
use mathlib.Core.List.{Permᴰ as Perm}
use sylar_server_study.Config.{Cast}
use sylar_server_study.Container.Yaml.{Yaml, Reloads, DistinctKeys, Lacks}
use sylar_server_study.Container.Order.{less_by-IsWeakOrder}
use sylar_server_study.Container.Sorted.{Below, Ascending, insert_all-same}
use sylar_server_study.Container.Unordered.{
  Missing, Unique, Unique-Perm, bucket_find, bucket_find-Perm, bucket_find-insert_all,
  bucket_insert,
}
use sylar_server_study.Container.Loops.{insert_all}
use sylar_server_study.Container.Cast.{
  key_of, key_less, map_from_str, map_to_str, unordered_map_from_str, unordered_map_to_str,
}
use sylar_server_study.Container.Views.{map_from_str-members, unordered_map_from_str-members}
use sylar_server_study.Container.RoundTrip.{EachValueSurvives, read_members_again}

module _ {T : Type 0} where
  Below-Lacks : (k : Text) (x : T) (xs : List (Text × T)) → Below key_less (k, x) xs → Lacks k xs
  Below-Lacks k x [] b = tt
  Below-Lacks k x ((k', x') ∷ xs) (b, bs) = (
    (λ same. absurd (
        ground (
          arith,
          (less_by-IsWeakOrder key_of).irrefl (k', x'),
          subst (λ z. key_less (z, x) (k', x') ≡ true) same b,
        ))),
    Below-Lacks k x xs bs,
  )

  -- The keys of a map differ.
  pub Ascending-DistinctKeys : (xs : List (Text × T)) → Ascending key_less xs → DistinctKeys xs
  Ascending-DistinctKeys [] a = tt
  Ascending-DistinctKeys ((k, x) ∷ xs) (b, a) = (Below-Lacks k x xs b, Ascending-DistinctKeys xs a)

  Missing-Lacks : (k : Text) (xs : List (Text × T)) → Missing key_of text_eq k xs → Lacks k xs
  Missing-Lacks k [] m = tt
  Missing-Lacks k ((k', x) ∷ xs) (m, ms) =
      ((λ same. absurd (ground (arith, (text_eq_iff k' k).1 (sym same)))), Missing-Lacks k xs ms)

  pub Unique-DistinctKeys : (xs : List (Text × T)) → Unique key_of text_eq xs → DistinctKeys xs
  Unique-DistinctKeys [] u = tt
  Unique-DistinctKeys ((k, x) ∷ xs) (m, u) = (Missing-Lacks k xs m, Unique-DistinctKeys xs u)

-- What is read from the text agrees with these members, whatever their order.
pub record ReadsAs {T : Type 0} (result : Option (List (Text × T))) (xs : List (Text × T))
    : Type 0 where
  pub read : List (Text × T)
  pub found : result ≡ some read
  pub same : (k : Text) → bucket_find key_of text_eq k read ≡ bucket_find key_of text_eq k xs

module _ (y : Yaml) {T : Type 0} (c : Cast T) (reloads : Reloads y) where
  -- A `std::map` that is written as YAML and read again is the same, where its keys ascend, writing
  -- a map with distinct keys and loading it gives its members, and the text of each value survives
  -- being loaded, written and cast.
  pub map_from_str-map_to_str :
      (xs : List (Text × T))
      → Ascending key_less xs
      → EachValueSurvives y c xs
      → (map_to_str y c xs >>= map_from_str y c) ≡ some xs
  unfolding map_to_str
  map_from_str-map_to_str xs a s =
      let r = read_members_again y c reloads xs s (Ascending-DistinctKeys xs a) in
      rw r.written (
        map_from_str-members y c r.text
        ∙ (rw r.back (ap some (insert_all-same key_less (less_by-IsWeakOrder key_of) xs a))))

  -- A `std::unordered_map` is written in any order of its members, and what is read again has the
  -- same value under every key, where its keys are unique, writing a map with distinct keys and
  -- loading it gives its members, and the text of each value survives being loaded, written and
  -- cast.
  pub unordered_map_from_str-unordered_map_to_str :
      (xs ys : List (Text × T))
      → Unique key_of text_eq xs
      → Perm xs ys
      → EachValueSurvives y c ys
      → ReadsAs (unordered_map_to_str y c ys >>= unordered_map_from_str y c) xs
  unfolding unordered_map_to_str bucket_find
  unordered_map_from_str-unordered_map_to_str xs ys u p s =
      let r =
        read_members_again y c reloads ys s
          (Unique-DistinctKeys ys (Unique-Perm key_of text_eq text_eq_iff p u)) in
      record {
        read = insert_all (bucket_insert key_of text_eq) [] ys;
        found = rw r.written (unordered_map_from_str-members y c r.text ∙ (rw r.back refl));
        same = λ k.
            bucket_find-insert_all key_of text_eq text_eq_iff k [] ys
            ∙ sym (bucket_find-Perm key_of text_eq text_eq_iff k p u);
      }
