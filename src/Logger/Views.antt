-- ===== src/Logger/Views.antt =====
-- What logging reads of the appenders, and what it leaves unchanged.
use sylar_server_study.Base.{
  ℕ, suc, zero, not, true, ◌&&◌, Text, if◌then◌else◌, leb, List, [], ◌∷◌, ◌++◌, Option, none, some,
  ◌>>=◌, get_elem?, modify, all, all-get, ◌≡◌, refl, ◌∙◌, arith, Option-cases, inl, inr,
}
use sylar_server_study.Level.{Level}
use sylar_server_study.Formatter.Items.{Event, Outside, Formatter, format}
use sylar_server_study.Logger.{Sink, stdout, file, Appender, Logger, Store, name_of}
use sylar_server_study.Logger.Valid.{is_some, is_ready, logger_ok, IsValid}
use sylar_server_study.Logger.Routing.{inherited, own_or_inherited, targets}

-- The file that an appender writes to, or none for the console.
abbrev pub file_of : Sink → Option Text
file_of stdout = none
file_of (file sink) = some sink.filename

-- What logging reads of an appender.
pub record View : Type 0 where
  pub to_file : Option Text
  pub level : Level
  pub formatter : Option Formatter

abbrev pub view : Appender → View
view x = record { to_file = file_of x.sink; level = x.level; formatter = x.formatter }

abbrev pub views : List Appender → ℕ → Option View
views xs a = elim (get_elem? xs a) [ none ↦ none | some x ↦ some (view x) ]

pub views-modify :
    (xs : List Appender) (a : ℕ) (f : Appender → Appender) (x : Appender)
    → get_elem? xs a ≡ some x
    → view (f x) ≡ view x
    → (b : ℕ) → views (modify xs a f) b ≡ views xs b
views-modify [] a f x q k b = refl
views-modify (y ∷ xs) zero f x q k zero = ground arith
views-modify (y ∷ xs) zero f x q k (suc b) = refl
views-modify (y ∷ xs) (suc a) f x q k zero = refl
views-modify (y ∷ xs) (suc a) f x q k (suc b) = views-modify xs a f x q k b

-- Nothing that logging reads, but the console and the files, is changed.
pub record Unchanged (s t : Store) : Type 0 where
  pub loggers : t.loggers ≡ s.loggers
  pub names : t.names ≡ s.names
  pub root : t.root ≡ s.root
  pub same : (b : ℕ) → views t.appenders b ≡ views s.appenders b
  pub valid : IsValid s → IsValid t

pub Unchanged-trans : {s t u : Store} → Unchanged s t → Unchanged t u → Unchanged s u
Unchanged-trans a b = record {
  loggers = b.loggers ∙ a.loggers;
  names = b.names ∙ a.names;
  root = b.root ∙ a.root;
  same = λ x. b.same x ∙ a.same x;
  valid = λ v. b.valid (a.valid v);
}

module _ (o : Outside) where
  -- What an appender is to write to the console.
  abbrev pub seen_text : (ℕ → Text) → Option View → Event → Option Text
  seen_text names none e = none
  seen_text names (some v) e =
      if not (is_some v.to_file) && leb v.level e.level
      then (v.formatter >>= λ f. format o names f e)
      else some []

  abbrev pub console_text : Store → List ℕ → Event → Option Text
  console_text s [] e = some []
  console_text s (a ∷ bs) e = do
    t ← seen_text (name_of s) (views s.appenders a) e
    ts ← console_text s bs e
    some (t ++ ts)

  pub console_text-Unchanged :
      (s t : Store) (bs : List ℕ) (e : Event)
      → Unchanged s t
      → console_text t bs e ≡ console_text s bs e
  console_text-Unchanged s t [] e u = refl
  console_text-Unchanged s t (a ∷ bs) e u =
      rw (console_text-Unchanged s t bs e u, u.same a, u.loggers)

pub is_ready-Unchanged :
    (s t : Store) (a : ℕ) → Unchanged s t → is_ready t.appenders a ≡ is_ready s.appenders a
is_ready-Unchanged s t a u = ground (arith, u.same a)

pub all-is_ready-Unchanged :
    (s t : Store) (bs : List ℕ)
    → Unchanged s t
    → all (is_ready t.appenders) bs ≡ all (is_ready s.appenders) bs
all-is_ready-Unchanged s t [] u = refl
all-is_ready-Unchanged s t (a ∷ bs) u =
    rw (all-is_ready-Unchanged s t bs u, is_ready-Unchanged s t a u)

inherited-ready :
    (s : Store) (root : Option ℕ) (e : Event)
    → IsValid s
    → all (is_ready s.appenders) (inherited s root e) ≡ true
inherited-ready s none e v = refl
inherited-ready s (some r) e v = elim (Option-cases (get_elem? s.loggers r)) [
  | inl q ↦ ground arith
  | inr (k, q) ↦
      ground (arith, all-get (logger_ok s.appenders s.loggers) s.loggers r k v.loggers_ok q)
]

own-ready :
    (s : Store) (l : Logger) (bs : List ℕ) (e : Event)
    → IsValid s
    → all (is_ready s.appenders) bs ≡ true
    → all (is_ready s.appenders) (own_or_inherited s l bs e) ≡ true
own-ready s l [] e v h = inherited-ready s l.root e v
own-ready s l (a ∷ bs) e v h = h

pub targets-ready :
    (s : Store) (l : Logger) (e : Event)
    → IsValid s
    → logger_ok s.appenders s.loggers l ≡ true
    → all (is_ready s.appenders) (targets s l e) ≡ true
targets-ready s l e v h = ground (arith, own-ready s l l.appenders e v)
