-- ===== src/Logger/Spoken.antt =====
-- sylar/log.h: which appenders a log statement reaches, and with what event.
use sylar_server_study.Base.{
  ℕ, Bool, Text, if◌then◌else◌, leb, Option, none, some, get_elem?, ◌≡◌, refl, Bool-cases, inl, inr,
}
use sylar_server_study.Level.{Level}
use sylar_server_study.Formatter.Items.{Event, Outside}
use sylar_server_study.Logger.{Logger, Store}
use sylar_server_study.Logger.Log.{log_all}
use sylar_server_study.Logger.Valid.{IsValid}
use sylar_server_study.Logger.Routing.{targets, log-targets}
use sylar_server_study.Logger.Statement.{
  Site, new_event, stream, event_format, end_wrap, log_level, log_fmt_level,
}

logger-event_format : (e : Event) (t : Option Text) → (event_format e t).logger ≡ e.logger
unfolding event_format stream
logger-event_format e none = refl
logger-event_format e (some t) = refl

module _ (o : Outside) (openable : Text → Bool) (now : ℕ) where
  -- The text of a log statement is computed only if the level of the logger lets the statement
  -- pass. Then one event with that text goes to the appenders that the logger, as it is by then,
  -- has for it, itself or from its root; otherwise nothing changes. The store is well formed after
  -- the text is computed, and the logger is there before and after.
  pub log_level-targets :
      (s s' : Store) (p : ℕ) (level : Level) (site : Site) (streamed : Store → Text × Store)
      (t : Text) (l l' : Logger)
      → get_elem? s.loggers p ≡ some l
      → streamed s ≡ (t, s')
      → IsValid s'
      → get_elem? s'.loggers p ≡ some l'
      → let e = record (new_event p level site) { content = t } in
        log_level o openable now 2 s p level site streamed
        ≡ (if leb l.level level then log_all o openable now s' (targets s' l' e) e else some s)
  unfolding log_level stream end_wrap new_event
  log_level-targets s s' p level site streamed t l l' q h v q' =
      elim (Bool-cases (leb l.level level)) [
        | inl passes ↦ rw (q, log_level, passes, h) (log-targets o openable now s' _ 0 p l' v q')
        | inr low ↦ rw (q, log_level, low) refl
      ]

  -- A formatted log statement does the same with the text that `vasprintf` writes, and with no text
  -- if it fails.
  pub log_fmt_level-targets :
      (s s' : Store) (p : ℕ) (level : Level) (site : Site) (printed : Store → Option Text × Store)
      (t : Option Text) (l l' : Logger)
      → get_elem? s.loggers p ≡ some l
      → printed s ≡ (t, s')
      → IsValid s'
      → get_elem? s'.loggers p ≡ some l'
      → let e = event_format (new_event p level site) t in
        log_fmt_level o openable now 2 s p level site printed
        ≡ (if leb l.level level then log_all o openable now s' (targets s' l' e) e else some s)
  unfolding log_fmt_level end_wrap new_event
  log_fmt_level-targets s s' p level site printed t l l' q h v q' =
      elim (Bool-cases (leb l.level level)) [
        | inl passes ↦
            rw (q, log_fmt_level, passes, h, logger-event_format (new_event p level site) t)
              (log-targets o openable now s' _ 0 p l' v q')
        | inr low ↦ rw (q, log_fmt_level, low) refl
      ]
