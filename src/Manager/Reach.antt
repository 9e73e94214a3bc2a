-- ===== src/Manager/Reach.antt =====
-- Every sequence of calls, from the construction of the manager on, keeps the store well formed.
use sylar_server_study.Base.{
  ℕ, suc, Text, some, length, length-append, length-modify, get_elem?, ◌≡◌, ◌<◌, ◌≤◌, refl, arith,
  Bool, Bool-cases, inl, inr, ◌+◌, sym, ◌∙◌, codes, Option-cases, eq_of_some,
}
use mathlib.Core.Path.{subst}
use sylar_server_study.Level
use sylar_server_study.Formatter.Items.{Event, Outside, Formatter, make}
use sylar_server_study.Logger.{
  Logger, Store, at_appender, new_logger, set_appender_formatter, inherit, add_appender,
  del_appender, clear_appenders, set_level, set_formatter, set_formatter_pattern, new_file_appender,
  new_stdout_appender,
}
use sylar_server_study.Logger.Log.{log}
use sylar_server_study.Logger.Valid.{IsValid}
use sylar_server_study.Logger.Operations.{
  set_appender_formatter-IsValid, set_appender_level-IsValid, add_appender-IsValid,
  del_appender-IsValid, clear_appenders-IsValid, set_level-IsValid, set_formatter-IsValid,
  set_formatter_pattern-IsValid, new_stdout_appender-IsValid, new_file_appender-IsValid,
}
use sylar_server_study.Logger.Output.{log-Emits}
use sylar_server_study.Manager.{get_logger, rooted, new_manager, console_pattern, file_pattern}
use sylar_server_study.Manager.Registry.{get_logger-IsValid}

-- A call on objects that are there; it happens at any time.
pub data Step (o : Outside) (openable : Text → Bool) (s : Store) : Store → Type 0 where
  get : (name : Text) → Step o openable s (get_logger s name).0
  make_stdout : Step o openable s (new_stdout_appender s)
  make_file : (name : Text) (now : ℕ) → Step o openable s (new_file_appender openable s name now)
  format_appender :
      (a : ℕ) (val : Formatter)
      → Step o openable s (at_appender s a (set_appender_formatter (some val)))
  level_appender :
      (a level : ℕ) → Step o openable s (at_appender s a (λ x. record x { level = level }))
  add : (p a : ℕ) → a < length s.appenders → Step o openable s (add_appender s p a)
  delete : (p a : ℕ) → Step o openable s (del_appender s p a)
  clear : (p : ℕ) → Step o openable s (clear_appenders s p)
  level_logger : (p level : ℕ) → Step o openable s (set_level s p level)
  format_logger : (p : ℕ) (val : Formatter) → Step o openable s (set_formatter s p val)
  pattern_logger : (p : ℕ) (val : Text) → Step o openable s (set_formatter_pattern s p val)
  write :
      (now fuel p : ℕ) (l : Logger) (e : Event) {t : Store}
      → Level.debug ≤ e.level
      → e.level ≤ Level.fatal
      → get_elem? s.loggers p ≡ some l
      → log o openable now (suc (suc fuel)) s p e ≡ some t
      → Step o openable s t

pub Step-IsValid :
    {o : Outside} {openable : Text → Bool} {s t : Store}
    → Step o openable s t
    → IsValid s
    → IsValid t
Step-IsValid {s} (get name) v = get_logger-IsValid s name v
Step-IsValid make_stdout v = new_stdout_appender-IsValid v
Step-IsValid {openable} (make_file name now) v = new_file_appender-IsValid openable name now v
Step-IsValid (format_appender a val) v = set_appender_formatter-IsValid a val v
Step-IsValid (level_appender a level) v = set_appender_level-IsValid a level v
Step-IsValid (add p a h) v = add_appender-IsValid p a h v
Step-IsValid (delete p a) v = del_appender-IsValid p a v
Step-IsValid (clear p) v = clear_appenders-IsValid p v
Step-IsValid (level_logger p level) v = set_level-IsValid p level v
Step-IsValid (format_logger p val) v = set_formatter-IsValid p val v
Step-IsValid (pattern_logger p val) v = set_formatter_pattern-IsValid p val v
Step-IsValid {o} {openable} {s} (write now fuel p l e lo hi q r) v =
    let (t', w, r', c, d, u) = log-Emits o openable now e lo hi fuel p l s v q in
    subst IsValid (eq_of_some (sym r' ∙ r)) (u.valid v)

pub data Reach (o : Outside) (openable : Text → Bool) : Store → Type 0 where
  start : (now : ℕ) → Reach o openable (new_manager openable now)
  next : {s t : Store} → Reach o openable s → Step o openable s t → Reach o openable t

rooted-IsValid : IsValid rooted
unfolding new_logger
rooted-IsValid = record { loggers_ok = refl; coherent = refl; manager_root = refl }

length_new_stdout : (s : Store) → length (new_stdout_appender s).appenders ≡ length s.appenders + 1
unfolding new_stdout_appender
length_new_stdout s = length-append s.appenders _

length_new_file :
    (openable : Text → Bool) (s : Store) (name : Text) (now : ℕ)
    → length (new_file_appender openable s name now).appenders ≡ length s.appenders + 1
unfolding new_file_appender
length_new_file openable s name now = elim (Bool-cases (openable name)) [
  | inl q ↦ rw q (length-append s.appenders _)
  | inr q ↦ rw q (length-append s.appenders _)
]

length-add_appender :
    (s : Store) (p a : ℕ) → length (add_appender s p a).appenders ≡ length s.appenders
unfolding add_appender
length-add_appender s p a = elim (Option-cases (get_elem? s.loggers p)) [
  | inl q ↦ rw (q, add_appender)
  | inr (l, q) ↦ rw (q, add_appender) (length-modify s.appenders a (inherit l.formatter))
]

-- A new appender that gets a formatter and is added to the root logger.
added-IsValid :
    (s : Store) (p a : ℕ) (val : Formatter)
    → a < length s.appenders
    → IsValid s
    → IsValid (add_appender (at_appender s a (set_appender_formatter (some val))) p a)
added-IsValid s p a val h v =
    add_appender-IsValid p a
      (omega (arith, length-modify s.appenders a (set_appender_formatter (some val))))
      (set_appender_formatter-IsValid a val v)

pub new_manager-IsValid : (openable : Text → Bool) (now : ℕ) → IsValid (new_manager openable now)
unfolding new_manager
new_manager-IsValid openable now =
    let s2 =
      add_appender (at_appender s1 0 (set_appender_formatter (some (make console_pattern)))) 0 0 in
    let v2 =
      added-IsValid s1 0 0 (make console_pattern) (omega (arith, length_new_stdout rooted))
        (new_stdout_appender-IsValid rooted-IsValid) in
    let v4 =
      added-IsValid (new_file_appender openable s2 (codes "root.log") now) 0 1 (make file_pattern)
        (omega (
          arith,
          length_new_file openable s2 (codes "root.log") now,
          length-add_appender
              (at_appender s1 0 (set_appender_formatter (some (make console_pattern)))) 0 0,
          length-modify s1.appenders 0 (set_appender_formatter (some (make console_pattern))),
          length_new_stdout rooted,
        ))
        (new_file_appender-IsValid openable (codes "root.log") now v2) in
    record { loggers_ok = v4.loggers_ok; coherent = v4.coherent; manager_root = v4.manager_root }
  where
    s1 : Store
    s1 = new_stdout_appender rooted

-- In every store that the calls can reach from a new manager, every appender of a logger has a
-- formatter, `m_has_formatter` says whether an appender has one, and no root has a root. The calls
-- name appenders that are there and hand over no null formatters, and the events have one of the five
-- levels.
pub Reach-IsValid :
    {o : Outside} {openable : Text → Bool} {s : Store} → Reach o openable s → IsValid s
Reach-IsValid {openable} (start now) = new_manager-IsValid openable now
Reach-IsValid (next r st) = Step-IsValid st (Reach-IsValid r)
