-- ===== src/Logger/Log.antt =====
-- sylar/log.cc: `Logger::log` and the `log` of the appenders.
use sylar_server_study.Base.{
  ℕ, suc, zero, Bool, not, Text, assign, if◌then◌else◌, ◌==◌, leb, List, [], ◌∷◌, ◌++◌, Option,
  none, some, ◌>>=◌, get_elem?,
}
use sylar_server_study.Formatter.Items.{Event, Outside, format}
use sylar_server_study.Logger.{
  FileSink, Sink, stdout, file, Appender, Store, content, at_appender, reopen, name_of,
}

module _ (o : Outside) (openable : Text → Bool) (now : ℕ) where
  -- `m_formatter->format(event)`; `none` for a null pointer, and where the format is undefined.
  unfoldable pub formatted : Store → Appender → Event → Option Text
  formatted s x e = do f ← x.formatter; format o (name_of s) f e

  -- `StdoutLogAppender::log`
  unfoldable pub stdout_log : Store → Appender → Event → Option Store
  unfolding formatted
  stdout_log s x e =
      if leb x.level e.level
      then (do t ← formatted s x e; some (record s { console = s.console ++ t }))
      else some s

  -- `if (now != m_lastTime) { reopen(std::ios::app); m_lastTime = now; }`
  unfoldable pub reopen_each_second : List (Text × Text) → FileSink → List (Text × Text) × FileSink
  unfolding reopen
  reopen_each_second files x =
      if not (now == x.last_time)
      then (let (files', x') = reopen openable files x in (files', record x' { last_time = now }))
      else (files, x)

  -- `m_filestream << …`, which does nothing on a stream that is not good.
  abbrev pub write : List (Text × Text) → FileSink → Text → List (Text × Text)
  write files x t =
      if x.is_open then assign x.filename (content x.filename files ++ t) files else files

  -- `FileLogAppender::log`
  unfoldable pub file_log : Store → ℕ → Appender → FileSink → Event → Option Store
  unfolding reopen_each_second formatted
  file_log s a x sink e =
      if leb x.level e.level
      then (let (files, sink') = reopen_each_second s.files sink in
          do
            t ← formatted s x e
            some (record (at_appender s a (λ y. record y { sink = file sink' })) {
              files = write files sink' t;
            }))
      else some s

  unfoldable pub sink_log : Sink → Store → ℕ → Appender → Event → Option Store
  sink_log stdout s a x e = stdout_log s x e
  sink_log (file sink) s a x e = file_log s a x sink e

  -- The virtual call `i->log(event)`.
  unfoldable pub appender_log : Store → ℕ → Event → Option Store
  unfolding sink_log
  appender_log s a e = do x ← get_elem? s.appenders a; sink_log x.sink s a x e

  unfoldable pub log_all : Store → List ℕ → Event → Option Store
  log_all s [] e = some s
  log_all s (a ∷ bs) e = do s' ← appender_log s a e; log_all s' bs e

  -- `Logger::log`. The fuel bounds the chain of `m_root`.
  unfoldable pub log : ℕ → Store → ℕ → Event → Option Store
  log zero s p e = none
  log (suc fuel) s p e = do
    l ← get_elem? s.loggers p
    if leb l.level e.level
        then elim l.appenders [
          | [] ↦ elim l.root [ none ↦ some s | some r ↦ log fuel s r e ]
          | a ∷ bs ↦ log_all s (a ∷ bs) e
        ]
        else some s
