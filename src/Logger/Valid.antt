-- ===== src/Logger/Valid.antt =====
-- Well-formed stores: every appender of a logger has a formatter, an appender has a formatter
-- exactly if `m_has_formatter` is set, and the chain of `m_root` has at most two loggers.
use sylar_server_study.Base.{
  ℕ, suc, zero, Bool, true, false, not, ◌&&◌, List, [], ◌∷◌, ◌++◌, Option, none, some, get_elem?,
  modify, all, all_mono, all-modify, ◌≡◌, refl, arith,
}
use sylar_server_study.Logger.{Appender, Logger, Store, at_appender, at_logger}

abbrev pub is_some {ℓ} : {A : Type ℓ} → Option A → Bool
is_some none = false
is_some (some a) = true

abbrev pub bool_eq : Bool → Bool → Bool
bool_eq true b = b
bool_eq false b = not b

-- The pointer names an appender that has a formatter.
abbrev pub is_ready : List Appender → ℕ → Bool
is_ready xs a = elim (get_elem? xs a) [ none ↦ false | some x ↦ is_some x.formatter ]

-- The logger has no root, or one that itself has none.
abbrev pub root_ok : List Logger → Option ℕ → Bool
root_ok ls none = true
root_ok ls (some r) = elim (get_elem? ls r) [ none ↦ false | some l ↦ not (is_some l.root) ]

abbrev pub logger_ok : List Appender → List Logger → Logger → Bool
logger_ok xs ls l = all (is_ready xs) l.appenders && root_ok ls l.root

abbrev pub is_coherent : Appender → Bool
is_coherent x = bool_eq (is_some x.formatter) x.has_formatter

pub record IsValid (s : Store) : Type 0 where
  pub loggers_ok : all (logger_ok s.appenders s.loggers) s.loggers ≡ true
  pub coherent : all is_coherent s.appenders ≡ true
  pub manager_root : root_ok s.loggers (some s.root) ≡ true

-- A change that takes no formatter away keeps the appenders ready.
pub is_ready-modify :
    (xs : List Appender) (b a : ℕ) (f : Appender → Appender)
    → ((x : Appender) → is_some x.formatter ≡ true → is_some (f x).formatter ≡ true)
    → is_ready xs a ≡ true
    → is_ready (modify xs b f) a ≡ true
is_ready-modify [] b a f k h = h
is_ready-modify (x ∷ xs) zero zero f k h = k x h
is_ready-modify (x ∷ xs) zero (suc a) f k h = h
is_ready-modify (x ∷ xs) (suc b) zero f k h = h
is_ready-modify (x ∷ xs) (suc b) (suc a) f k h = is_ready-modify xs b a f k h

pub is_ready-append :
    (xs : List Appender) (x : Appender) (a : ℕ)
    → is_ready xs a ≡ true
    → is_ready (xs ++ x ∷ []) a ≡ true
is_ready-append [] x a h = cc
is_ready-append (y ∷ xs) x zero h = h
is_ready-append (y ∷ xs) x (suc a) h = is_ready-append xs x a h

pub root_ok-modify :
    (ls : List Logger) (p : ℕ) (f : Logger → Logger) (r : Option ℕ)
    → ((l : Logger) → (f l).root ≡ l.root)
    → root_ok (modify ls p f) r ≡ root_ok ls r
root_ok-modify ls p f none k = refl
root_ok-modify [] p f (some r) k = refl
root_ok-modify (l ∷ ls) zero f (some zero) k = rw (k l)
root_ok-modify (l ∷ ls) zero f (some (suc r)) k = refl
root_ok-modify (l ∷ ls) (suc p) f (some zero) k = refl
root_ok-modify (l ∷ ls) (suc p) f (some (suc r)) k = root_ok-modify ls p f (some r) k

pub root_ok-append :
    (ls : List Logger) (l : Logger) (r : Option ℕ)
    → root_ok ls r ≡ true
    → root_ok (ls ++ l ∷ []) r ≡ true
root_ok-append ls l none h = refl
root_ok-append [] l (some r) h = cc
root_ok-append (m ∷ ls) l (some zero) h = h
root_ok-append (m ∷ ls) l (some (suc r)) h = root_ok-append ls l (some r) h

-- A well-formed store stays so under a change of one appender that keeps or sets its formatter.
pub at_appender-IsValid :
    {s : Store} (b : ℕ) (f : Appender → Appender)
    → ((x : Appender) → is_some x.formatter ≡ true → is_some (f x).formatter ≡ true)
    → ((x : Appender) → is_coherent x ≡ true → is_coherent (f x) ≡ true)
    → IsValid s
    → IsValid (at_appender s b f)
at_appender-IsValid {s} b f keeps coh v = record {
  loggers_ok = all_mono (logger_ok s.appenders s.loggers) _ s.loggers ready v.loggers_ok;
  coherent = all-modify is_coherent s.appenders b f coh v.coherent;
  manager_root = v.manager_root;
}
  where
    ready :
        (l : Logger)
        → logger_ok s.appenders s.loggers l ≡ true
        → logger_ok (modify s.appenders b f) s.loggers l ≡ true
    ready l h = ground (
      arith,
      all_mono (is_ready s.appenders) (is_ready (modify s.appenders b f)) l.appenders
          (λ a. is_ready-modify s.appenders b a f keeps),
    )

-- And under a change of one logger that keeps its root and lets it have ready appenders only.
pub at_logger-IsValid :
    {s : Store} (p : ℕ) (f : Logger → Logger)
    → ((l : Logger) → (f l).root ≡ l.root)
    → ((l : Logger)
        → all (is_ready s.appenders) l.appenders ≡ true
        → all (is_ready s.appenders) (f l).appenders ≡ true)
    → IsValid s
    → IsValid (at_logger s p f)
at_logger-IsValid {s} p f roots ready v = record {
  loggers_ok =
      all_mono (logger_ok s.appenders s.loggers) _ (modify s.loggers p f) rooted
        (all-modify (logger_ok s.appenders s.loggers) s.loggers p f changed v.loggers_ok);
  coherent = v.coherent;
  manager_root = ground (arith, root_ok-modify s.loggers p f (some s.root) roots, v.manager_root);
}
  where
    changed :
        (l : Logger)
        → logger_ok s.appenders s.loggers l ≡ true
        → logger_ok s.appenders s.loggers (f l) ≡ true
    changed l h = ground (arith, roots l, ready l)

    rooted :
        (l : Logger)
        → logger_ok s.appenders s.loggers l ≡ true
        → logger_ok s.appenders (modify s.loggers p f) l ≡ true
    rooted l h = ground (arith, root_ok-modify s.loggers p f l.root roots)
