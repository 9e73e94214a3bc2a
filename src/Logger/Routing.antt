-- ===== src/Logger/Routing.antt =====
-- Which appenders an event reaches: those of the logger, or of its root if it has none of its own,
-- behind the thresholds of the two loggers.
use sylar_server_study.Base.{
  ℕ, suc, Bool, true, Text, if◌then◌else◌, leb, List, [], ◌∷◌, Option, none, some, get_elem?,
  all-get, ◌≡◌, refl, arith, Option-cases, inl, inr,
}
use sylar_server_study.Formatter.Items.{Event, Outside}
use sylar_server_study.Logger.{Logger, Store}
use sylar_server_study.Logger.Log.{log, log_all}
use sylar_server_study.Logger.Valid.{root_ok, logger_ok, IsValid}

abbrev passing : Logger → Event → List ℕ
passing l e = if leb l.level e.level then l.appenders else []

abbrev pub inherited : Store → Option ℕ → Event → List ℕ
inherited s none e = []
inherited s (some r) e = elim (get_elem? s.loggers r) [ none ↦ [] | some k ↦ passing k e ]

abbrev pub own_or_inherited : Store → Logger → List ℕ → Event → List ℕ
own_or_inherited s l [] e = inherited s l.root e
own_or_inherited s l (a ∷ bs) e = a ∷ bs

abbrev pub targets : Store → Logger → Event → List ℕ
targets s l e = if leb l.level e.level then own_or_inherited s l l.appenders e else []

module _ (o : Outside) (openable : Text → Bool) (now : ℕ) (s : Store) (e : Event) where
  -- The event goes up, or to the logger's own appenders.
  abbrev onward : ℕ → Option ℕ → List ℕ → Option Store
  onward fuel none [] = some s
  onward fuel (some r) [] = log o openable now fuel s r e
  onward fuel root (a ∷ bs) = log_all o openable now s (a ∷ bs) e

  log_step :
      (fuel p : ℕ) (l : Logger)
      → get_elem? s.loggers p ≡ some l
      → log o openable now (suc fuel) s p e
        ≡ (if leb l.level e.level then onward fuel l.root l.appenders else some s)
  unfolding log
  log_step fuel p l q = rw (q, log) (ground arith)

  log_inherited :
      (fuel : ℕ) (root : Option ℕ)
      → root_ok s.loggers root ≡ true
      → onward (suc fuel) root [] ≡ log_all o openable now s (inherited s root e) e
  unfolding log_all
  log_inherited fuel none h = refl
  log_inherited fuel (some r) h = elim (Option-cases (get_elem? s.loggers r)) [
    | inl q ↦ ground arith
    | inr (k, q) ↦ ground (arith, log_step fuel r k q)
  ]

  -- In a well-formed store two rounds of fuel are enough for `Logger::log`, which then hands the
  -- event to the appenders of the logger; to those of its root, if it has none itself; and to none, if
  -- the level of the event is below that of the logger that would write it.
  pub log-targets :
      (fuel p : ℕ) (l : Logger)
      → IsValid s
      → get_elem? s.loggers p ≡ some l
      → log o openable now (suc (suc fuel)) s p e ≡ log_all o openable now s (targets s l e) e
  unfolding log_all
  log-targets fuel p l v q = ground (
    arith,
    log_step (suc fuel) p l q,
    log_inherited fuel l.root,
    all-get (logger_ok s.appenders s.loggers) s.loggers p l v.loggers_ok q,
  )
