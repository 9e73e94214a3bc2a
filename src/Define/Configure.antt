-- ===== src/Define/Configure.antt =====
-- Applying one definition of a logger.
use sylar_server_study.Base.{
  ℕ, Bool, not, Text, is_empty, if◌then◌else◌, List, [], ◌∷◌, ◌++◌, some, get_elem?, length,
  get_elem?-modify_self, append_assoc, append-nil, ◌≡◌, ◌≢◌, refl, ◌∙◌, arith, Bool-cases, inl, inr,
}
use sylar_server_study.Level.{Level}
use sylar_server_study.Formatter.Items.{make}
use sylar_server_study.Logger.{
  Logger, Store, at_logger, clear_appenders, set_level, set_formatter_pattern,
}
use sylar_server_study.Logger.Valid.{IsValid, at_logger-IsValid}
use sylar_server_study.Logger.Operations.{clear_appenders-IsValid, set_level-IsValid}
use sylar_server_study.Logger.Frozen.{set_formatter_lem}
use sylar_server_study.Manager.Registry.{IsNamed}
use sylar_server_study.Define.{
  type_unknow, AppenderDefine, LogDefine, configure_appender, add_appenders, configure_logger,
}
use sylar_server_study.Define.Changed.{
  Changed, Changed-trans, Changed-refl, at_logger-Changed, LoggerAt,
}
use sylar_server_study.Define.Matches.{MatchesAll, AllKnown}
use sylar_server_study.Define.Appender.{configure_appender-Grown}

-- A change of the logger that leaves it the level.
abbrev Relevelled : ℕ → Level → Store → Store → Type 0
Relevelled p level s t =
    Changed p s t × ((k : Logger) × (get_elem? t.loggers p ≡ some k) × (k.level ≡ level))

at_logger-Relevelled :
    (s : Store) (p : ℕ) (f : Logger → Logger) (l : Logger) (level : Level)
    → get_elem? s.loggers p ≡ some l
    → ((k : Logger) → (f k).name ≡ k.name)
    → (f l).level ≡ level
    → IsNamed s
    → IsValid (at_logger s p f)
    → Relevelled p level s (at_logger s p f)
at_logger-Relevelled s p f l level q hn hl n v =
    (at_logger-Changed s p f hn n v, (f l, get_elem?-modify_self s.loggers p f l q, hl))

set_formatter_pattern-Relevelled :
    (s : Store) (p : ℕ) (val : Text) (level : Level) (l : Logger)
    → get_elem? s.loggers p ≡ some l
    → l.level ≡ level
    → IsValid s
    → IsNamed s
    → Relevelled p level s (set_formatter_pattern s p val)
unfolding set_formatter_pattern
set_formatter_pattern-Relevelled s p val level l q h v n = elim (Bool-cases (make val).is_error) [
  | inl bad ↦ simp bad (
    record {
      names = refl;
      others = λ r ne. refl;
      grows = λ i x e. e;
      valid = record {
        loggers_ok = v.loggers_ok;
        coherent = v.coherent;
        manager_root = v.manager_root;
      };
      named = n;
    },
    (l, q, h),
  )
  | inr good ↦ simp good (
      rw (set_formatter_lem s p (make val) l v q) (
        simp good (
          at_logger-Relevelled s p (λ k. record k { formatter = make val }) l level q (λ k. refl) h
            n
            (at_logger-IsValid p (λ k. record k { formatter = make val }) (λ k. refl) (λ k r. r)
              v))))
]

-- `if (!i.formatter.empty()) logger->setFormatter(i.formatter);`
pattern_if-Relevelled :
    (val : Text) (s : Store) (p : ℕ) (level : Level) (l : Logger)
    → get_elem? s.loggers p ≡ some l
    → l.level ≡ level
    → IsValid s
    → IsNamed s
    → Relevelled p level s (if not (is_empty val) then set_formatter_pattern s p val else s)
pattern_if-Relevelled [] s p level l q h v n = (Changed-refl v n, (l, q, h))
pattern_if-Relevelled (c ∷ t) s p level l q h v n =
    set_formatter_pattern-Relevelled s p (c ∷ t) level l q h v n

module _ (openable : Text → Bool) (now : ℕ) where
  -- All definitions of the list, in order.
  pub record AllGrown (s : Store) (p : ℕ) (level : Level) (ids : List ℕ) (ds : List AppenderDefine)
      (t : Store) : Type 0 where
    pub changed : Changed p s t
    pub more : List ℕ
    pub at : LoggerAt t p level (ids ++ more)
    pub matches : MatchesAll t.appenders more ds

  add_appenders_known :
      (a : AppenderDefine) (ds : List AppenderDefine) (s : Store) (p : ℕ)
      → a.kind ≢ type_unknow
      → add_appenders openable now s p (a ∷ ds)
        ≡ add_appenders openable now (configure_appender openable now s p a) p ds
  unfolding add_appenders
  add_appenders_known a ds s p k = ground arith

  add_appenders-AllGrown :
      (ds : List AppenderDefine) (s : Store) (p : ℕ) (level : Level) (ids : List ℕ)
      → AllKnown ds
      → IsValid s
      → IsNamed s
      → LoggerAt s p level ids
      → AllGrown s p level ids ds (add_appenders openable now s p ds)
  unfolding add_appenders
  add_appenders-AllGrown [] s p level ids k v n (l, q, hl, ha) = record {
    changed = Changed-refl v n;
    more = [];
    at = (l, q, hl, rw append-nil ha);
    matches = tt;
  }
  add_appenders-AllGrown (a ∷ ds) s p level ids (k, ks) v n at =
      let g = configure_appender-Grown openable now s p level ids a k v n at in
      let t = configure_appender openable now s p a in
      let r =
        add_appenders-AllGrown ds t p level (ids ++ length s.appenders ∷ []) ks g.changed.valid
          g.changed.named g.at in
      rw (add_appenders_known a ds s p k) (record {
        changed = Changed-trans g.changed r.changed;
        more = length s.appenders ∷ r.more;
        at = (r.at.0, r.at.1, r.at.2, r.at.3 ∙ append_assoc ids (length s.appenders ∷ []) r.more);
        matches = (
          (g.matches.0, r.changed.grows _ _ g.matches.1, g.matches.2, g.matches.3, g.matches.4),
          r.matches,
        );
      })

  pub configure_logger-AllGrown :
      (s : Store) (p : ℕ) (d : LogDefine) (l : Logger)
      → AllKnown d.appenders
      → get_elem? s.loggers p ≡ some l
      → IsValid s
      → IsNamed s
      → AllGrown s p d.level [] d.appenders (configure_logger openable now s p d)
  unfolding configure_logger set_level clear_appenders
  configure_logger-AllGrown s p d l known q v n =
      let (c1, at1) =
        at_logger-Relevelled s p (λ k. record k { level = d.level }) l d.level q (λ k. refl) refl n
          (set_level-IsValid p d.level v) in
      let (c2, at2) =
        pattern_if-Relevelled d.formatter (set_level s p d.level) p d.level at1.0 at1.1 at1.2
          c1.valid c1.named in
      let s2 =
        (if not (is_empty d.formatter)
          then set_formatter_pattern (set_level s p d.level) p d.formatter
          else set_level s p d.level) in
      let clear : Logger → Logger = λ k. record k { appenders = [] } in
      let c3 =
        at_logger-Changed s2 p clear (λ k. refl) c2.named (clear_appenders-IsValid p c2.valid) in
      let r =
        add_appenders-AllGrown d.appenders (clear_appenders s2 p) p d.level [] known c3.valid
          c3.named
          (clear at2.0, get_elem?-modify_self s2.loggers p clear at2.0 at2.1, at2.2, refl) in
      record {
        changed = Changed-trans c1 (Changed-trans c2 (Changed-trans c3 r.changed));
        more = r.more;
        at = r.at;
        matches = r.matches;
      }
