-- ===== src/Formatter/Table.antt =====
-- The table of `init` in sylar/log.cc gives each directive its meaning, and no other name one.
use sylar_server_study.Base.{
  ℕ, zero, suc, ap, Bool, true, false, not, Text, codes, text_eq, find, List, [], ◌∷◌, ◌++◌, Option,
  none, some, ◌>>=◌, ◌≡◌, refl, arith, Bool-cases, inl, inr,
}
use sylar_server_study.Level
use sylar_server_study.Formatter.Items.{
  Event, Outside, Item, s_format_items, item_of, item_text, file_text, shorten, color, error_format,
}
use sylar_server_study.Formatter.Meaning.{
  is_single, text_eq_single, among, is_letter, paint, unpaint, short_names, Meanings, meaning,
  named_file, documented, directive_text,
}

color-paint : (level : Level.Level) → color level ≡ paint level
unfolding color
color-paint zero = refl
color-paint (suc zero) = refl
color-paint (suc (suc zero)) = refl
color-paint (suc (suc (suc zero))) = refl
color-paint (suc (suc (suc (suc zero)))) = refl
color-paint (suc (suc (suc (suc (suc zero))))) = refl
color-paint (suc (suc (suc (suc (suc (suc n)))))) = ground arith

shorten-short_names : (ds : List Text) → shorten ds ≡ short_names ds
unfolding shorten text_eq
shorten-short_names [] = refl
shorten-short_names ([] ∷ ds) = ground (arith, shorten-short_names ds)
shorten-short_names ((c ∷ d ∷ s) ∷ ds) = ground (arith, shorten-short_names ds)
shorten-short_names ((c ∷ []) ∷ ds) = ground (arith, shorten-short_names ds)

module _ (o : Outside) (names : ℕ → Text) (e : Event) where
  abbrev Agree : List (Text × (Text → Item)) → Meanings → Type 0
  Agree [] [] = Unit
  Agree ((k, mk) ∷ t) ((d, write) ∷ ms) =
      (k ≡ d ∷ []) × ((f : Text) → item_text o names (mk f) e ≡ write f) × Agree t ms
  Agree _ _ = ⊥

  abbrev chosen : Text → Text → Option (Text → Item) → Item
  chosen n f none = error_format n
  chosen n f (some mk) = mk f

  chosen-meaning :
      (n f : Text) (t : List (Text × (Text → Item))) (ms : Meanings)
      → Agree t ms
      → item_text o names (chosen n f (find n t)) e ≡ meaning n f ms
  unfolding find meaning item_text
  chosen-meaning n f [] [] h = refl
  chosen-meaning n f [] (m ∷ ms) h = absurd h
  chosen-meaning n f (r ∷ t) [] h = absurd h
  chosen-meaning n f ((k, mk) ∷ t) ((d, write) ∷ ms) (hk, hw, h) =
      rw hk (elim (Bool-cases (is_single d n)) [
        | inl e ↦ rw (text_eq_single d n, e) (hw f)
        | inr e ↦ rw (text_eq_single d n, e) (chosen-meaning n f t ms h)
      ])

  style_eq : (d : ℕ) (n : Text) → text_eq n (d ∷ []) ≡ is_single d n
  unfolding text_eq
  style_eq d [] = refl
  style_eq d (c ∷ []) = ground arith
  style_eq d (c ∷ b ∷ n) = ground arith

  file_text-named_file : (f : Text) → file_text o names f e.file ≡ named_file o names e f
  unfolding file_text
  file_text-named_file f =
      ground (arith, style_eq b's' f, style_eq b'r' f, shorten-short_names (o.directories e.file))

  color_level-paint :
      item_text o names Item.color_level e
      ≡ (paint e.level >>= λ c. some (c ++ (Level.to_string e.level ++ unpaint)))
  unfolding item_text
  color_level-paint =
      ap (λ p. p >>= λ c. some (c ++ (Level.to_string e.level ++ unpaint))) (color-paint e.level)

  file_name-named_file :
      (f : Text) → item_text o names (Item.file_name f) e ≡ some (named_file o names e f)
  unfolding item_text
  file_name-named_file f = ap some (file_text-named_file f)

  documented-Agree : Agree s_format_items (documented o names e)
  unfolding s_format_items item_text
  documented-Agree = (
    refl,
    λ f. refl,
    (
      refl,
      λ f. refl,
      (
        refl,
        λ f. refl,
        (
          refl,
          λ f. refl,
          (
            refl,
            λ f. refl,
            (
              refl,
              λ f. refl,
              (
                refl,
                λ f. refl,
                (
                  refl,
                  λ f. file_name-named_file f,
                  (
                    refl,
                    λ f. refl,
                    (
                      refl,
                      λ f. refl,
                      (refl, λ f. refl, (refl, λ f. color_level-paint, (refl, λ f. refl, tt))),
                    ),
                  ),
                ),
              ),
            ),
          ),
        ),
      ),
    ),
  )

  pub item_text-directive :
      (n f : Text)
      → item_text o names (item_of (record { str = n; fmt = f; kind = 1 })).0 e
        ≡ directive_text o names e n f
  unfolding item_of
  item_text-directive n f =
      ground (arith, chosen-meaning n f s_format_items (documented o names e) documented-Agree)

abbrev is_none {ℓ} : {A : Type ℓ} → Option A → Bool
is_none none = true
is_none (some a) = false

abbrev Keys : List (Text × (Text → Item)) → Text → Type 0
Keys [] [] = Unit
Keys ((k, mk) ∷ t) (d ∷ ds) = (k ≡ d ∷ []) × Keys t ds
Keys _ _ = ⊥

is_none-find :
    (n : Text) (t : List (Text × (Text → Item))) (ds : Text)
    → Keys t ds
    → is_none (find n t) ≡ not (among n ds)
unfolding find among
is_none-find n [] [] h = refl
is_none-find n [] (d ∷ ds) h = absurd h
is_none-find n (r ∷ t) [] h = absurd h
is_none-find n ((k, mk) ∷ t) (d ∷ ds) (hk, h) =
    rw (hk, text_eq_single) (ground (arith, is_none-find n t ds h))

letters-Keys : Keys s_format_items (codes "mprctndflTFPN")
unfolding s_format_items
letters-Keys = (
  refl,
  (
    refl,
    (refl, (refl, (refl, (refl, (refl, (refl, (refl, (refl, (refl, (refl, (refl, tt))))))))))),
  ),
)

-- The keys of the table, in its order, are the letters of the directives.
same_letters : (n : Text) → among n (codes "mprctndflTFPN") ≡ is_letter n
unfolding among
same_letters n = ground arith

pub item_of_bad :
    (n f : Text) → (item_of (record { str = n; fmt = f; kind = 1 })).1 ≡ not (is_letter n)
unfolding item_of
item_of_bad n f =
    ground
      (arith, is_none-find n s_format_items (codes "mprctndflTFPN") letters-Keys, same_letters n)
