-- ===== src/Formatter/Format.antt =====
-- What a formatter made from a written pattern does with an event.
use sylar_server_study.Base.{
  ℕ, Bool, true, false, not, ◌&&◌, ◌||◌, Text, codes, if◌then◌else◌, List, [], ◌∷◌, ◌++◌, Option,
  none, some, ◌>>=◌, ◌≡◌, refl, sym, ap, arith, append-nil, append_assoc, map,
}
use sylar_server_study.Formatter.{Entry, error_pattern, scan}
use sylar_server_study.Formatter.Pieces.{
  Piece, literal, bare, braced, print, entry, IsPattern, ends_open,
}
use sylar_server_study.Formatter.Scan.{scan-print}
use sylar_server_study.Formatter.Items.{
  Event, Outside, Item, item_of, build, make, item_text, items_text, format,
}
use sylar_server_study.Formatter.Table.{item_text-directive, item_of_bad}
use sylar_server_study.Formatter.Meaning.{is_known, all_known, pieces_text, piece_text}

abbrev items_of : List Entry → List Item
items_of es = map (λ x. (item_of x).0) es

abbrev any_bad : List Entry → Bool
any_bad [] = false
any_bad (x ∷ xs) = (item_of x).1 || any_bad xs

build_lem :
    (es : List Entry) (items : List Item) (is_error : Bool)
    → build items is_error es ≡ (items ++ items_of es, is_error || any_bad es)
unfolding build
build_lem [] items is_error = ground (arith, append-nil items)
build_lem (x ∷ xs) items is_error = ground (
  arith,
  build_lem xs (items ++ (item_of x).0 ∷ []) (if (item_of x).1 then true else is_error),
  append_assoc items ((item_of x).0 ∷ []) (items_of xs),
)

make_items : (pattern : Text) → (make pattern).items ≡ items_of (scan pattern).vec
unfolding make
make_items pattern = ap (λ r. r.0) (build_lem (scan pattern).vec [] (scan pattern).is_error)

make_is_error :
    (pattern : Text)
    → (make pattern).is_error ≡ (scan pattern).is_error || any_bad (scan pattern).vec
unfolding make
make_is_error pattern = ap (λ r. r.1) (build_lem (scan pattern).vec [] (scan pattern).is_error)

entry_bad : (p : Piece) → (item_of (entry p)).1 ≡ not (is_known p)
unfolding item_of
entry_bad (literal t) = refl
entry_bad (bare n) = item_of_bad n []
entry_bad (braced n f) = item_of_bad n f

any_bad-entries :
    (ps : List Piece) (es : List Entry)
    → any_bad (map entry ps ++ es) ≡ not (all_known ps) || any_bad es
any_bad-entries [] es = refl
any_bad-entries (p ∷ ps) es = ground (arith, entry_bad p, any_bad-entries ps es)

-- A formatter made from a written pattern is in error exactly if the pattern does not end in a text
-- or a directive without braces, or names a directive by anything but one of the letters that the
-- comment above `LogFormatter` lists and `n`, which it leaves out.
pub make-print-is_error :
    (ps : List Piece)
    → IsPattern ps
    → (make (print ps)).is_error ≡ not (ends_open ps && all_known ps)
unfolding item_of
make-print-is_error ps h =
    let (v, e) = scan-print ps h in rw (make_is_error, v, e, any_bad-entries) (ground arith)

bind_regroup :
    (a b c : Option Text)
    → (a >>= λ t. (b >>= λ u. c >>= λ w. some (u ++ w)) >>= λ ts. some (t ++ ts))
      ≡ ((a >>= λ t. b >>= λ ts. some (t ++ ts)) >>= λ t. c >>= λ u. some (t ++ u))
bind_regroup none b c = refl
bind_regroup (some t) none c = refl
bind_regroup (some t) (some u) none = refl
bind_regroup (some t) (some u) (some w) = ap some (sym (append_assoc t u w))

module _ (o : Outside) (names : ℕ → Text) (e : Event) where
  entry_text : (p : Piece) → item_text o names (item_of (entry p)).0 e ≡ piece_text o names e p
  unfolding item_of item_text
  entry_text (literal t) = refl
  entry_text (bare n) = item_text-directive o names e n []
  entry_text (braced n f) = item_text-directive o names e n f

  abbrev closing : List Piece → Text
  closing ps = if ends_open ps then [] else codes "<<error_pattern>>"

  items_text-entries :
      (ps : List Piece) (es : List Entry)
      → items_text o names (items_of (map entry ps ++ es)) e ≡ (
          pieces_text o names e ps >>= λ t.
          items_text o names (items_of es) e >>= λ u. some (t ++ u))
  unfolding items_text
  items_text-entries [] es = ground arith
  items_text-entries (p ∷ ps) es =
      rw (entry_text p, items_text-entries ps es)
        (bind_regroup (piece_text o names e p) (pieces_text o names e ps)
          (items_text o names (items_of es) e))

  closing_text :
      (ps : List Piece)
      → items_text o names (items_of (if ends_open ps then [] else error_pattern ∷ [])) e
        ≡ some (closing ps)
  unfolding items_text item_text item_of
  closing_text ps = ground arith

  -- A formatter made from a pattern that is written from texts and directives writes the text and
  -- the documented text of each directive, in order; a pattern that does not end in a text or in
  -- a directive without braces gets the error text behind that. The whole is undefined only where
  -- the text of a piece is. No two texts follow each other, and a text behind a directive without
  -- braces begins with neither a letter nor a brace.
  pub format-make-print :
      (ps : List Piece)
      → IsPattern ps
      → format o names (make (print ps)) e
        ≡ (pieces_text o names e ps >>= λ t. some (t ++ closing ps))
  unfolding format
  format-make-print ps h =
      rw (make_items, (scan-print ps h).0, items_text-entries ps, closing_text ps)
