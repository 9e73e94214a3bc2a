-- ===== src/Logger/Output.antt =====
-- What logging does to the store: it is defined, it writes to the console what the stdout appenders
-- among the targets format, in their order, and it leaves the loggers alone.
use sylar_server_study.Base.{
  ℕ, suc, Bool, true, Text, leb, List, [], ◌∷◌, ◌++◌, Option, some, ◌>>=◌, get_elem?, all, all-get,
  ◌≡◌, ◌≤◌, ◌==◌, refl, sym, arith, Option-cases, inl, inr, Bool-cases, append-nil, append_assoc,
}
use sylar_server_study.Level
use sylar_server_study.Level.{Level}
use sylar_server_study.Formatter.Items.{Event, Outside, format}
use sylar_server_study.Formatter.Total.{format-total}
use sylar_server_study.Logger.{
  Sink, stdout, file, FileSink, Appender, Logger, Store, at_appender, reopen, name_of,
}
use sylar_server_study.Logger.Log.{
  formatted, stdout_log, file_log, sink_log, appender_log, log_all, log, write, reopen_each_second,
}
use sylar_server_study.Logger.Valid.{is_some, is_ready, IsValid, at_appender-IsValid}
use sylar_server_study.Logger.Routing.{targets, log-targets}
use sylar_server_study.Logger.Views.{
  view, views, views-modify, Unchanged, Unchanged-trans, seen_text, console_text,
  console_text-Unchanged, all-is_ready-Unchanged, targets-ready,
}

module _ (o : Outside) (openable : Text → Bool) (now : ℕ) (e : Event) (lo : Level.debug ≤ e.level)
    (hi : e.level ≤ Level.fatal) where
  -- The step is defined, and its console output is `text`.
  abbrev pub Emits : Store → Option Store → Option Text → Type 0
  Emits s r text =
      (t : Store) × (w : Text) × (r ≡ some t)
      × (text ≡ some w)
      × (t.console ≡ s.console ++ w)
      × Unchanged s t

  formatted-total :
      (s : Store) (x : Appender)
      → is_some x.formatter ≡ true
      → (w : Text) × (formatted o openable now s x e ≡ some w)
        × ((x.formatter >>= λ f. format o (name_of s) f e) ≡ some w)
  unfolding formatted
  formatted-total s x h = elim (Option-cases x.formatter) [
    | inl q ↦ absurd (cc)
    | inr (f, q) ↦
        let (w, d) = format-total o (name_of s) e lo hi f in (w, rw (q, formatted) d, rw q d)
  ]

  silent :
      (s : Store) (r : Option Store) (text : Option Text)
      → r ≡ some s
      → text ≡ some []
      → Emits s r text
  silent s r text p q = (s, [], p, q, sym (append-nil s.console), unchanged)
    where
      unchanged : Unchanged s s
      unchanged = record {
        loggers = refl;
        names = refl;
        root = refl;
        same = λ b. refl;
        valid = λ v. v;
      }

  stdout_log-Emits :
      (s : Store) (x : Appender)
      → x.sink ≡ stdout
      → is_some x.formatter ≡ true
      → Emits s (stdout_log o openable now s x e) (seen_text o (name_of s) (some (view x)) e)
  unfolding stdout_log
  stdout_log-Emits s x k h =
      let (w, d, d') = formatted-total s x h in
      elim (Bool-cases (leb x.level e.level)) [
        | inl pass ↦ (
          record s { console = s.console ++ w },
          w,
          ground arith,
          ground arith,
          refl,
          record {
            loggers = refl;
            names = refl;
            root = refl;
            same = λ b. refl;
            valid = λ v. record {
              loggers_ok = v.loggers_ok;
              coherent = v.coherent;
              manager_root = v.manager_root;
            };
          },
        )
        | inr low ↦ silent s _ _ (ground arith) (ground arith)
      ]

  file-reopen_each_second :
      (files : List (Text × Text)) (x : FileSink)
      → (reopen_each_second o openable now files x).1.filename ≡ x.filename
  unfolding reopen_each_second reopen
  file-reopen_each_second files x = elim (Bool-cases (now == x.last_time)) [
    | inl same ↦ rw (same, reopen_each_second) refl
    | inr later ↦ elim (Bool-cases (openable x.filename)) [
      | inl opens ↦ rw (later, opens, reopen_each_second, reopen) refl
      | inr fails ↦ rw (later, fails, reopen_each_second, reopen) refl
    ]
  ]

  file_log-Emits :
      (s : Store) (a : ℕ) (x : Appender) (sink : FileSink)
      → get_elem? s.appenders a ≡ some x
      → x.sink ≡ file sink
      → is_some x.formatter ≡ true
      → Emits s (file_log o openable now s a x sink e) (seen_text o (name_of s) (some (view x)) e)
  unfolding file_log
  file_log-Emits s a x sink q k h =
      let (w, d, d') = formatted-total s x h in
      let (files, sink') = reopen_each_second o openable now s.files sink in
      let put : Appender → Appender = λ y. record y { sink = file sink' } in
      elim (Bool-cases (leb x.level e.level)) [
        | inl pass ↦ (
          record (at_appender s a put) { files = write o openable now files sink' w },
          [],
          ground arith,
          ground arith,
          sym (append-nil s.console),
          record {
            loggers = refl;
            names = refl;
            root = refl;
            same =
                views-modify s.appenders a put x q
                  (rw (k, file-reopen_each_second s.files sink) refl);
            valid = λ v.
                let v' = at_appender-IsValid a put (λ y z. z) (λ y z. z) v in
                record {
                  loggers_ok = v'.loggers_ok;
                  coherent = v'.coherent;
                  manager_root = v'.manager_root;
                };
          },
        )
        | inr low ↦ silent s _ _ (ground arith) (ground arith)
      ]

  sink_log-Emits :
      (k : Sink) (s : Store) (a : ℕ) (x : Appender)
      → get_elem? s.appenders a ≡ some x
      → x.sink ≡ k
      → is_some x.formatter ≡ true
      → Emits s (sink_log o openable now k s a x e) (seen_text o (name_of s) (some (view x)) e)
  unfolding sink_log
  sink_log-Emits stdout s a x q k h = stdout_log-Emits s x k h
  sink_log-Emits (file sink) s a x q k h = file_log-Emits s a x sink q k h

  appender_log-Emits :
      (s : Store) (a : ℕ)
      → is_ready s.appenders a ≡ true
      → Emits s
          (appender_log o openable now s a e)
          (seen_text o (name_of s) (views s.appenders a) e)
  unfolding appender_log
  appender_log-Emits s a h = elim (Option-cases (get_elem? s.appenders a)) [
    | inl q ↦ absurd (ground arith)
    | inr (x, q) ↦
        let (t, w, p, r, c, u) = sink_log-Emits x.sink s a x q refl (ground arith) in
        (t, w, rw (q, appender_log) p, ground arith, c, u)
  ]

  log_all-Emits :
      (bs : List ℕ) (s : Store)
      → all (is_ready s.appenders) bs ≡ true
      → Emits s (log_all o openable now s bs e) (console_text o s bs e)
  unfolding log_all
  log_all-Emits [] s h = silent s _ _ refl refl
  log_all-Emits (a ∷ bs) s h =
      let (t, w, p, q, c, u) = appender_log-Emits s a (ground arith) in
      let (t', w', p', q', c', u') =
        log_all-Emits bs t (rw (all-is_ready-Unchanged s t bs u) (ground arith)) in
      (
        t',
        w ++ w',
        ground arith,
        ground (arith, console_text-Unchanged o s t bs e u),
        rw (c', c, append_assoc),
        Unchanged-trans u u',
      )

  pub log-Emits :
      (fuel p : ℕ) (l : Logger) (s : Store)
      → IsValid s
      → get_elem? s.loggers p ≡ some l
      → Emits s (log o openable now (suc (suc fuel)) s p e) (console_text o s (targets s l e) e)
  log-Emits fuel p l s v q = rw (log-targets o openable now s e fuel p l v q) (
      log_all-Emits (targets s l e) s
        (targets-ready s l e v (all-get _ s.loggers p l v.loggers_ok q)))

  -- In a well-formed store an event of one of the five levels is always logged, with two rounds of
  -- fuel or more: no null pointer is read, the store stays well formed and keeps its loggers and their
  -- names, and the console grows by what the stdout appenders among the targets write, in the order
  -- of the list, each under its own threshold and formatter.
  pub log-console :
      (fuel p : ℕ) (l : Logger) (s : Store)
      → IsValid s
      → get_elem? s.loggers p ≡ some l
      → (t : Store) × (w : Text) × (log o openable now (suc (suc fuel)) s p e ≡ some t)
        × (console_text o s (targets s l e) e ≡ some w)
        × (t.console ≡ s.console ++ w)
        × IsValid t
        × (t.loggers ≡ s.loggers)
        × (t.names ≡ s.names)
  log-console fuel p l s v q =
      let (t, w, r, c, d, u) = log-Emits fuel p l s v q in
      (t, w, r, c, d, u.valid v, u.loggers, u.names)
