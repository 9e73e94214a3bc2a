-- ===== src/Formatter/Total.antt =====
-- Formatting is defined for every event of the five levels.
use sylar_server_study.Base.{
  ℕ, ◌≤◌, Text, List, [], ◌∷◌, ◌++◌, none, some, ◌≢◌, inl, inr, Option-cases, ◌≡◌, refl, arith,
}
use sylar_server_study.Level
use sylar_server_study.Formatter.Items.{
  Event, Outside, Item, Formatter, color, clear_format, item_text, items_text, format,
}

module _ (o : Outside) (names : ℕ → Text) (e : Event) (lo : Level.debug ≤ e.level)
    (hi : e.level ≤ Level.fatal) where
  color_ne_none : color e.level ≢ none
  unfolding color
  color_ne_none = ground arith

  color-total : (c : Text) × (color e.level ≡ some c)
  color-total = elim (Option-cases (color e.level)) [
    | inl q ↦ absurd (color_ne_none q)
    | inr found ↦ found
  ]

  item_text-total : (i : Item) → (t : Text) × (item_text o names i e ≡ some t)
  unfolding item_text
  item_text-total Item.color_level =
      let (c, q) = color-total in (c ++ (Level.to_string e.level ++ clear_format), rw q)
  item_text-total Item.message = (_, refl)
  item_text-total _ = (_, refl)

  items_text-total : (is : List Item) → (t : Text) × (items_text o names is e ≡ some t)
  unfolding items_text
  items_text-total [] = ([], refl)
  items_text-total (i ∷ is) =
      let (t, q) = item_text-total i in let (ts, r) = items_text-total is in (t ++ ts, rw (q, r))

  -- Whatever the pattern, an event of one of the five levels is formatted: no null pointer is
  -- streamed.
  pub format-total : (f : Formatter) → (t : Text) × (format o names f e ≡ some t)
  unfolding format
  format-total f = items_text-total f.items
