-- ===== src/Define/Last.antt =====
-- The last appender of a store, from its creation to its place in a logger.
use sylar_server_study.Base.{
  ℕ, not, Text, is_empty, if◌then◌else◌, List, [], ◌∷◌, ◌++◌, some, get_elem?, modify, length,
  length-append, modify-append_new, ◌≡◌, refl, ap, arith,
}
use sylar_server_study.Formatter.Items.{Formatter, make}
use sylar_server_study.Logger.{
  Appender, Logger, Store, at_appender, at_logger, set_appender_formatter, inherit, add_appender,
}
use sylar_server_study.Logger.Valid.{IsValid}
use sylar_server_study.Logger.Operations.{set_appender_formatter-IsValid, add_appender-IsValid}
use sylar_server_study.Define.Matches.{HasFormatter}

pub modify_last :
    (ys xs : List Appender) (a : Appender) (f : Appender → Appender)
    → ys ≡ xs ++ a ∷ []
    → modify ys (length xs) f ≡ xs ++ f a ∷ []
modify_last ys xs a f h = rw h (modify-append_new xs a f)

-- What the last appender of a store is to be, and the rest.
pub record Last (xs : List Appender) (x : Appender) (fmt : Text) (s t : Store) : Type 0 where
  pub last : Appender
  pub appenders : t.appenders ≡ xs ++ last ∷ []
  pub level : last.level ≡ x.level
  pub sink : last.sink ≡ x.sink
  pub formatter : HasFormatter fmt last.formatter
  pub names : t.names ≡ s.names
  pub valid : IsValid t

abbrev pub with_formatter : Text → ℕ → Store → Store
with_formatter fmt ap s =
    if not (is_empty fmt) then at_appender s ap (set_appender_formatter (some (make fmt))) else s

pub with_formatter-Last :
    (fmt : Text) (s : Store) (xs : List Appender) (x : Appender)
    → s.appenders ≡ xs ++ x ∷ []
    → IsValid s
    → Last xs x fmt s (with_formatter fmt (length xs) s)
      × ((with_formatter fmt (length xs) s).loggers ≡ s.loggers)
unfolding set_appender_formatter
with_formatter-Last [] s xs x h v = (
  record {
    last = x;
    appenders = h;
    level = refl;
    sink = refl;
    formatter = tt;
    names = refl;
    valid = v;
  },
  refl,
)
with_formatter-Last (c ∷ t) s xs x h v = (
  record {
    last = _;
    appenders = modify_last s.appenders xs x (set_appender_formatter (some (make (c ∷ t)))) h;
    level = refl;
    sink = refl;
    formatter = refl;
    names = refl;
    valid = set_appender_formatter-IsValid (length xs) (make (c ∷ t)) v;
  },
  refl,
)

inherit_formatter :
    (fmt : Text) (val : Formatter) (x : Appender)
    → HasFormatter fmt x.formatter
    → HasFormatter fmt (inherit val x).formatter
unfolding inherit
inherit_formatter [] val x h = tt
inherit_formatter (c ∷ t) val x h = ground arith

inherit_level : (val : Formatter) (x : Appender) → (inherit val x).level ≡ x.level
unfolding inherit
inherit_level val x = ground arith

inherit_sink : (val : Formatter) (x : Appender) → (inherit val x).sink ≡ x.sink
unfolding inherit
inherit_sink val x = ground arith

pub add_appender_lem :
    (s : Store) (p a : ℕ) (l : Logger)
    → get_elem? s.loggers p ≡ some l
    → add_appender s p a
      ≡ at_logger
          (at_appender s a (inherit l.formatter))
          p
          (λ k. record k { appenders = k.appenders ++ a ∷ [] })
unfolding add_appender
add_appender_lem s p a l q = rw (q, add_appender)

pub add_appender-Last :
    (fmt : Text) (s : Store) (p : ℕ) (l : Logger) (xs : List Appender) (x : Appender)
    → get_elem? s.loggers p ≡ some l
    → s.appenders ≡ xs ++ x ∷ []
    → HasFormatter fmt x.formatter
    → IsValid s
    → Last xs x fmt s (add_appender s p (length xs))
add_appender-Last fmt s p l xs x q h k v = record {
  last = inherit l.formatter x;
  appenders =
      rw (add_appender_lem s p (length xs) l q)
        (modify_last s.appenders xs x (inherit l.formatter) h);
  level = inherit_level l.formatter x;
  sink = inherit_sink l.formatter x;
  formatter = inherit_formatter fmt l.formatter x k;
  names = rw (add_appender_lem s p (length xs) l q);
  valid =
      add_appender-IsValid p (length xs) (ground (arith, ap length h, length-append xs (x ∷ []))) v;
}

pub ap_loggers : {s t : Store} → s ≡ t → s.loggers ≡ t.loggers
ap_loggers = ap (λ u. u.loggers)
