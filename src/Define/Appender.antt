-- ===== src/Define/Appender.antt =====
-- Applying one definition of an appender.
use sylar_server_study.Base.{
  ℕ, Bool, Text, List, [], ◌∷◌, ◌++◌, some, get_elem?, modify, length, get_elem?-modify_self,
  get_elem?-modify_ne, get_elem?-append_new, ◌≡◌, ◌≢◌, refl, ◌∙◌, Bool-cases, inl, inr,
}
use sylar_server_study.Level.{Level}
use sylar_server_study.Logger.{
  Appender, Logger, Store, at_appender, add_appender, new_file_appender, new_stdout_appender,
}
use sylar_server_study.Logger.Valid.{IsValid}
use sylar_server_study.Logger.Operations.{
  set_appender_level-IsValid, new_stdout_appender-IsValid, new_file_appender-IsValid,
}
use sylar_server_study.Manager.Registry.{IsNamed, is_named-modify}
use sylar_server_study.Define.{
  AppenderType, type_unknow, type_file, type_stdout, AppenderDefine, new_appender,
  configure_appender,
}
use sylar_server_study.Define.Changed.{Changed, LoggerAt, Extends-append}
use sylar_server_study.Define.Matches.{HasClass, Matches}
use sylar_server_study.Define.Last.{
  modify_last, with_formatter, with_formatter-Last, add_appender_lem, add_appender-Last, ap_loggers,
}

module _ (openable : Text → Bool) (now : ℕ) where
  -- A new appender stands behind the others, with no formatter, and no logger has changed.
  record Added (k : AppenderType) (name : Text) (s t : Store) : Type 0 where
    new : Appender
    appenders : t.appenders ≡ s.appenders ++ new ∷ []
    class : HasClass k name new.sink
    loggers : t.loggers ≡ s.loggers
    names : t.names ≡ s.names
    valid : IsValid t

  new_appender-Added :
      (k : AppenderType) (s : Store) (name : Text)
      → k ≢ type_unknow
      → IsValid s
      → Added k name s (new_appender openable now k s name)
  unfolding new_stdout_appender new_file_appender
  new_appender-Added type_unknow s name h v = absurd (h refl)
  new_appender-Added type_stdout s name h v = record {
    new = _;
    appenders = refl;
    class = tt;
    loggers = refl;
    names = refl;
    valid = new_stdout_appender-IsValid v;
  }
  new_appender-Added type_file s name h v = elim (Bool-cases (openable name)) [
    | inl q ↦ rw q (record {
      new = _;
      appenders = refl;
      class = refl;
      loggers = refl;
      names = refl;
      valid = rw q at (new_file_appender-IsValid openable name now v);
    })
    | inr q ↦ rw q (record {
      new = _;
      appenders = refl;
      class = refl;
      loggers = refl;
      names = refl;
      valid = rw q at (new_file_appender-IsValid openable name now v);
    })
  ]

  -- One appender more, as its definition says, behind those of the logger.
  pub record Grown (s : Store) (p : ℕ) (level : Level) (ids : List ℕ) (a : AppenderDefine)
      (t : Store) : Type 0 where
    pub changed : Changed p s t
    pub at : LoggerAt t p level (ids ++ length s.appenders ∷ [])
    pub matches : Matches t.appenders (length s.appenders) a

  pub configure_appender-Grown :
      (s : Store) (p : ℕ) (level : Level) (ids : List ℕ) (a : AppenderDefine)
      → a.kind ≢ type_unknow
      → IsValid s
      → IsNamed s
      → LoggerAt s p level ids
      → Grown s p level ids a (configure_appender openable now s p a)
  unfolding configure_appender
  configure_appender-Grown s p level ids a known v n (l, q, hl, ha) =
      let s0 = new_appender openable now a.kind s a.file in
      let ap = length s.appenders in
      let s1 = at_appender s0 ap (λ x. record x { level = a.level }) in
      let s2 = with_formatter a.formatter ap s1 in
      let t = add_appender s2 p ap in
      let n0 = new_appender-Added a.kind s a.file known v in
      let (n2, loggers) =
        with_formatter-Last a.formatter s1 s.appenders (record n0.new { level = a.level })
          (modify_last s0.appenders s.appenders n0.new (λ x. record x { level = a.level })
            n0.appenders)
          (set_appender_level-IsValid ap a.level n0.valid) in
      let q2 : get_elem? s2.loggers p ≡ some l = rw (loggers, n0.loggers) q in
      let n3 =
        add_appender-Last a.formatter s2 p l s.appenders n2.last q2 n2.appenders n2.formatter
          n2.valid in
      let put : Logger → Logger = λ k. record k { appenders = k.appenders ++ ap ∷ [] } in
      let stored : t.loggers ≡ modify s.loggers p put =
        ap_loggers (add_appender_lem s2 p ap l q2) ∙ rw (loggers, n0.loggers) in
      let names = n3.names ∙ n2.names ∙ n0.names in
      record {
        changed = record {
          names = names;
          others = λ r ne. rw stored (get_elem?-modify_ne s.loggers p r put ne);
          grows = rw n3.appenders (Extends-append s.appenders (n3.last ∷ []));
          valid = n3.valid;
          named = λ k r e.
              rw stored (is_named-modify s.loggers p r put k (λ j. refl) ∙ n k r (rw names at e));
        };
        at = (put l, rw stored (get_elem?-modify_self s.loggers p put l q), hl, rw ha);
        matches = (
          n3.last,
          rw n3.appenders (get_elem?-append_new s.appenders n3.last),
          n3.level ∙ n2.level,
          rw (n3.sink, n2.sink) n0.class,
          n3.formatter,
        );
      }
