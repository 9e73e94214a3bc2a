-- ===== src/Logs/Names.antt =====
-- The set of definitions that the cast of the variable "logs" gives.
use sylar_server_study.Base.{
  true, false, Text, text_eq, text_eq_iff, List, [], ◌∷◌, Option, none, some, ◌>>=◌, ◌≡◌, sym,
  subst, ap, arith, eq_of_some, Bool-cases, Option-cases, inl, inr, ◌∙◌,
}
use sylar_server_study.Define.{LogDefine, find_define}
use sylar_server_study.Define.Yaml.{DefineNode, read_define}
use sylar_server_study.Define.Known.{read_define-AllKnown}
use sylar_server_study.Define.Each.{Spares, Spares-weaken, Distinct, Each}
use sylar_server_study.Define.Change.{is_changed}
use sylar_server_study.Define.Listener.{HasKnown}
use sylar_server_study.Container.Yaml.{Yaml}
use sylar_server_study.Container.Order.{text_less, less_by-IsWeakOrder, IsWeakOrder}
use sylar_server_study.Container.Sorted.{Below, Ascending, set_insert, insert_all-Ascending}
use sylar_server_study.Container.Loops.{cast_all, insert_all}
use sylar_server_study.Container.Cast.{set_from_str}
use sylar_server_study.Container.Views.{elements, set_from_str-elements}
use sylar_server_study.Logs.{define_less, define_cast, define_from_str}
use sylar_server_study.Logs.Equal.{define_eq_sound}

define_less-IsWeakOrder : IsWeakOrder define_less
unfolding define_less
define_less-IsWeakOrder = less_by-IsWeakOrder (λ d. d.name)

Below-Spares :
    (d : LogDefine) (ds : List LogDefine) → Below define_less d ds → Spares (λ e. true) d.name ds
unfolding define_less
Below-Spares d [] b = tt
Below-Spares d (e ∷ ds) (b, bs) = (
  λ c same. absurd (
      ground
        (arith, define_less-IsWeakOrder.irrefl d, subst (λ z. text_less d.name z ≡ true) same b)),
  Below-Spares d ds bs,
)

-- The names of a set differ.
Ascending-Distinct : (ds : List LogDefine) → Ascending define_less ds → Distinct ds
Ascending-Distinct [] a = tt
Ascending-Distinct (d ∷ ds) (b, a) = (Below-Spares d ds b, Ascending-Distinct ds a)

Each-set_insert :
    (d : LogDefine) (ds : List LogDefine)
    → HasKnown d
    → Each HasKnown ds
    → Each HasKnown (set_insert define_less ds d)
unfolding set_insert
Each-set_insert d [] h hs = (h, tt)
Each-set_insert d (e ∷ ds) h (k, hs) = elim (Bool-cases (define_less d e)) [
  | inl lower ↦ rw lower (h, (k, hs))
  | inr q ↦ elim (Bool-cases (define_less e d)) [
    | inl upper ↦ rw (q, upper) (k, Each-set_insert d ds h hs)
    | inr same ↦ rw (q, same) (k, hs)
  ]
]

Each-insert_all :
    (ds es : List LogDefine)
    → Each HasKnown ds
    → Each HasKnown es
    → Each HasKnown (insert_all (set_insert define_less) ds es)
Each-insert_all ds [] h k = h
Each-insert_all ds (e ∷ es) h (k, ks) =
    Each-insert_all (set_insert define_less ds e) es (Each-set_insert e ds k h) ks

-- A definition that did not change has a name that no changed one of the set has.
pub unchanged-Spares :
    (old : List LogDefine) (d : LogDefine) (ds : List LogDefine)
    → Distinct ds
    → find_define d.name ds ≡ some d
    → is_changed old d ≡ false
    → Spares (is_changed old) d.name ds
unfolding find_define
unchanged-Spares old d [] dis f same = tt
unchanged-Spares old d (e ∷ ds) (apart, dis) f same = elim (Bool-cases (text_eq e.name d.name)) [
  | inl here ↦
      let e=d : e ≡ d = eq_of_some (rw here at f) in
      (
        λ changed n. absurd (ground (arith, ap (is_changed old) e=d)),
        Spares-weaken (is_changed old) d.name ds
            (subst (λ z. Spares (λ x. true) z.name ds) e=d apart),
      )
  | inr there ↦ (
    λ changed n. absurd (ground (arith, (text_eq_iff e.name d.name).1 n)),
    unchanged-Spares old d ds dis (rw there at f) same,
  )
]

-- It is the one of the old set.
pub unchanged_found :
    (old : List LogDefine) (d : LogDefine)
    → is_changed old d ≡ false
    → find_define d.name old ≡ some d
unchanged_found old d same = elim (Option-cases (find_define d.name old)) [
  | inl q ↦ absurd (ground (arith, q))
  | inr (d', q) ↦ let e : d ≡ d' = define_eq_sound d d' (ground (arith, q)) in q ∙ ap some (sym e)
]

module _ (y : Yaml) (view : y.Doc → Option DefineNode) (build : DefineNode → y.Doc) where
  define_from_str-HasKnown :
      (v : Text) (d : LogDefine) → define_from_str y view build v ≡ some d → HasKnown d
  unfolding define_from_str
  define_from_str-HasKnown v d h = elim (Option-cases (y.load v)) [
    | inl bad ↦ let e : none ≡ some d = rw bad at h in absurd (cc)
    | inr (node, good) ↦
        let h' : (view node >>= λ n. some (read_define n)) ≡ some d = rw good at h in
        elim (Option-cases (view node)) [
          | inl bad' ↦ let e : none ≡ some d = rw bad' at h' in absurd (cc)
          | inr (n, good') ↦
              let e : read_define n ≡ d = eq_of_some (rw good' at h') in
              subst HasKnown e (read_define-AllKnown n)
        ]
  ]

  cast_all-HasKnown :
      (ts : List Text) (ds : List LogDefine)
      → cast_all (define_from_str y view build) ts ≡ some ds
      → Each HasKnown ds
  cast_all-HasKnown [] ds h = subst (Each HasKnown) (eq_of_some h) tt
  cast_all-HasKnown (t ∷ ts) ds h = elim (Option-cases (define_from_str y view build t)) [
    | inl bad ↦ let e : none ≡ some ds = rw bad at h in absurd (cc)
    | inr (d, good) ↦
        let h' : (cast_all (define_from_str y view build) ts >>= λ es. some (d ∷ es)) ≡ some ds =
          rw good at h in
        elim (Option-cases (cast_all (define_from_str y view build) ts)) [
          | inl bad' ↦ let e : none ≡ some ds = rw bad' at h' in absurd (cc)
          | inr (es, good') ↦
              let e : d ∷ es ≡ ds = eq_of_some (rw good' at h') in
              subst (Each HasKnown) e
                (define_from_str-HasKnown t d good, cast_all-HasKnown ts es good')
        ]
  ]

  elements-HasKnown :
      (v : Text) (ds : List LogDefine)
      → elements y (define_cast y view build) v ≡ some ds
      → Each HasKnown ds
  elements-HasKnown v ds h = elim (Option-cases (y.load v)) [
    | inl bad ↦ let e : none ≡ some ds = rw bad at h in absurd (cc)
    | inr (node, good) ↦ cast_all-HasKnown _ ds (rw good at h)
  ]

  -- The set that is read from a text has distinct names and no appender of an unknown type.
  pub logs-from_str :
      (v : Text) (ds : List LogDefine)
      → set_from_str y (define_cast y view build) define_less v ≡ some ds
      → Distinct ds × Each HasKnown ds
  logs-from_str v ds h =
      let h' = sym (set_from_str-elements y (define_cast y view build) define_less v) ∙ h in
      elim (Option-cases (elements y (define_cast y view build) v)) [
        | inl bad ↦ let e : none ≡ some ds = rw bad at h' in absurd (cc)
        | inr (es, good) ↦
            let e : insert_all (set_insert define_less) [] es ≡ ds = eq_of_some (rw good at h') in
            subst (λ z. Distinct z × Each HasKnown z) e
              (
                Ascending-Distinct _
                    (insert_all-Ascending define_less define_less-IsWeakOrder [] es tt),
                Each-insert_all [] es tt (elements-HasKnown v es good),
              )
      ]
