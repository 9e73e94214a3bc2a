-- ===== src/Logger/Statement.antt =====
-- sylar/log.h and sylar/log.cc: the macros of the log statements, `LogEvent` and `LogEventWrap`.
use sylar_server_study.Base.{
  ℕ, Bool, Text, [], ◌++◌, if◌then◌else◌, leb, Option, none, some, ◌>>=◌, get_elem?,
}
use sylar_server_study.Level.{Level}
use sylar_server_study.Formatter.Items.{Event, Outside}
use sylar_server_study.Logger.{Store}
use sylar_server_study.Logger.Log.{log}

-- `__FILE__`, `__LINE__`, `GetThreadId()`, `GetFiberId()`, `time(0)` and `Thread::GetName()`.
pub record Site : Type 0 where
  pub file : Text
  pub line : ℕ
  pub thread_id : ℕ
  pub fiber_id : ℕ
  pub time : ℕ
  pub thread_name : Text

-- `LogEvent::LogEvent`, as the macros call it.
unfoldable pub new_event : ℕ → Level → Site → Event
new_event logger level site = record {
  file = site.file;
  line = site.line;
  elapse = 0;
  thread_id = site.thread_id;
  fiber_id = site.fiber_id;
  time = site.time;
  logger = logger;
  level = level;
  thread_name = site.thread_name;
  content = [];
}

-- `getSS() << …`
unfoldable pub stream : Event → Text → Event
stream e t = record e { content = e.content ++ t }

-- `LogEvent::format`, with what `vasprintf` writes, or `none` for its error.
unfoldable pub event_format : Event → Option Text → Event
unfolding stream
event_format e none = e
event_format e (some t) = stream e t

module _ (o : Outside) (openable : Text → Bool) (now : ℕ) where
  -- `LogEventWrap::~LogEventWrap`; the fuel is for the chain of roots.
  unfoldable pub end_wrap : ℕ → Store → Event → Option Store
  end_wrap fuel s e = log o openable now fuel s e.logger e

  -- `SYLAR_LOG_LEVEL(logger, level) << …`. What is streamed is computed behind the test, and may use
  -- the loggers.
  unfoldable pub log_level : ℕ → Store → ℕ → Level → Site → (Store → Text × Store) → Option Store
  unfolding new_event stream end_wrap
  log_level fuel s p level site streamed = do
    l ← get_elem? s.loggers p
    if leb l.level level
        then (let (t, s') = streamed s in end_wrap fuel s' (stream (new_event p level site) t))
        else some s

  -- `SYLAR_LOG_FMT_LEVEL(logger, level, fmt, …)`
  unfoldable pub log_fmt_level :
      ℕ → Store → ℕ → Level → Site → (Store → Option Text × Store) → Option Store
  unfolding new_event event_format end_wrap
  log_fmt_level fuel s p level site printed = do
    l ← get_elem? s.loggers p
    if leb l.level level
        then (let (t, s') = printed s in end_wrap fuel s' (event_format (new_event p level site) t))
        else some s
