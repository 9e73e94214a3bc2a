-- ===== src/Logs/Logging.antt =====
-- sylar/log.cc with sylar/log.h: a program that asks for a logger by its name, and logs through it,
-- while the variable "logs" is in force.
use sylar_server_study.Base.{
  ℕ, Bool, Text, find, List, [], ◌∷◌, none, some, get_elem?, ◌≡◌, ◌≢◌, ◌≤◌, refl, sym, ap, subst,
  ◌∙◌, Option-cases, inl, inr, eq_of_some,
}
use sylar_server_study.Level
use sylar_server_study.Formatter.Items.{Event, Outside}
use sylar_server_study.Logger.{Sink, stdout, file, Appender, Store}
use sylar_server_study.Logger.Log.{log}
use sylar_server_study.Logger.Views.{view, views, file_of, Unchanged}
use sylar_server_study.Logger.Output.{log-Emits}
use sylar_server_study.Manager.{get_logger}
use sylar_server_study.Manager.Registry.{get_logger_old, get_logger-Registered}
use sylar_server_study.Define.{
  LogDefine, AppenderType, type_unknow, type_file, type_stdout, AppenderDefine,
}
use sylar_server_study.Define.Changed.{Changed-refl}
use sylar_server_study.Define.Frame.{Changed-Frame, Frame-Holds, registered_logger}
use sylar_server_study.Define.Matches.{HasClass, HasFormatter, Matches, MatchesAll}
use sylar_server_study.Define.Change.{AsDefined, AsDefined-Extends}
use sylar_server_study.Logs.Agree.{Agrees}

-- The class and the file depend on the file that the appender writes to.
HasClass-file_of :
    (k : AppenderType) (name : Text) (x y : Sink)
    → file_of y ≡ file_of x
    → HasClass k name x
    → HasClass k name y
HasClass-file_of type_unknow name x y h c = absurd c
HasClass-file_of type_stdout name stdout stdout h c = tt
HasClass-file_of type_stdout name stdout (file t) h c = absurd (cc)
HasClass-file_of type_stdout name (file s) y h c = absurd c
HasClass-file_of type_file name (file s) (file t) h c = cc
HasClass-file_of type_file name (file s) stdout h c = absurd (cc)
HasClass-file_of type_file name stdout y h c = absurd c

Matches-views :
    (xs ys : List Appender) (i : ℕ) (d : AppenderDefine)
    → views ys i ≡ views xs i
    → Matches xs i d
    → Matches ys i d
Matches-views xs ys i d h (x, q, l, c, f) =
    let seen : views xs i ≡ some (view x) = rw (q, views) refl in
    elim (Option-cases (get_elem? ys i)) [
      | inl r ↦ let e : none ≡ some (view x) = rw (r, views) at (h ∙ seen) in absurd (cc)
      | inr (y, r) ↦
          let e : some (view y) ≡ some (view x) = rw (r, views) at (h ∙ seen) in
          let v : view y ≡ view x = eq_of_some e in
          (
            y,
            r,
            ap (λ z. z.level) v ∙ l,
            HasClass-file_of d.kind d.file x.sink y.sink (ap (λ z. z.to_file) v) c,
            subst (HasFormatter d.formatter) (sym (ap (λ z. z.formatter) v)) f,
          )
    ]

MatchesAll-views :
    (xs ys : List Appender) (is : List ℕ) (ds : List AppenderDefine)
    → ((i : ℕ) → views ys i ≡ views xs i)
    → MatchesAll xs is ds
    → MatchesAll ys is ds
MatchesAll-views xs ys [] [] h m = tt
MatchesAll-views xs ys [] (d ∷ ds) h m = absurd m
MatchesAll-views xs ys (i ∷ is) [] h m = absurd m
MatchesAll-views xs ys (i ∷ is) (d ∷ ds) h (m, ms) =
    (Matches-views xs ys i d (h i) m, MatchesAll-views xs ys is ds h ms)

-- What logging leaves unchanged is all that the agreement depends on.
Unchanged-Agrees :
    (value : List LogDefine) (s t : Store) → Unchanged s t → Agrees value s → Agrees value t
Unchanged-Agrees value s t u a = record {
  distinct = a.distinct;
  known = a.known;
  valid = u.valid a.valid;
  named = λ k p h. rw u.loggers (a.named k p (rw u.names at h));
  in_force = λ d f.
      let h = a.in_force d f in
      record {
        pointer = h.pointer;
        logger = h.logger;
        found = rw u.names h.found;
        there = rw u.loggers h.there;
        fact = (
          h.fact.0,
          MatchesAll-views s.appenders t.appenders h.logger.appenders d.appenders u.same h.fact.1,
        );
      };
}

-- A logger that is there is handed out as it is, and a new one has a name of its own.
get_logger-Agrees :
    (value : List LogDefine) (s : Store) (name : Text)
    → Agrees value s
    → Agrees value (get_logger s name).0
get_logger-Agrees value s name a = elim (Option-cases (find name s.names)) [
  | inr (p, q) ↦ subst (Agrees value) (sym (ap (λ r. r.0) (get_logger_old s name p q))) a
  | inl q ↦
      let r = get_logger-Registered s name a.valid a.named in
      record {
        distinct = a.distinct;
        known = a.known;
        valid = r.valid;
        named = r.still_named;
        in_force = λ d f.
            let h = a.in_force d f in
            Frame-Holds (AsDefined d) (AsDefined-Extends d) (λ e. missing d e q h.pointer h.found)
              (Changed-Frame s name _ a.valid a.named (Changed-refl r.valid r.still_named)) h;
      }
]
  where
    missing :
        (d : LogDefine)
        → name ≡ d.name
        → find name s.names ≡ none
        → (p : ℕ) → find d.name s.names ≢ some p
    missing d e q p h = let h' : find name s.names ≡ some p = rw e h in absurd (cc)

module _ (o : Outside) (openable : Text → Bool) where
  -- A logger is asked for by its name, and an event of one of the five levels is logged through it.
  pub logged-Agrees :
      (now : ℕ) (value : List LogDefine) (s : Store) (name : Text) (e : Event)
      → Level.debug ≤ e.level
      → e.level ≤ Level.fatal
      → Agrees value s
      → (t : Store) × (log o openable now 2 (get_logger s name).0 (get_logger s name).1 e ≡ some t)
        × Agrees value t
  logged-Agrees now value s name e lo hi a =
      let r = get_logger-Registered s name a.valid a.named in
      let s' = (get_logger s name).0 in
      let (l, q) = registered_logger s'.loggers (get_logger s name).1 name r.named in
      let (t, w, d, c, m, u) =
        log-Emits o openable now e lo hi 0 (get_logger s name).1 l s' r.valid q in
      (t, d, Unchanged-Agrees value s' t u (get_logger-Agrees value s name a))
