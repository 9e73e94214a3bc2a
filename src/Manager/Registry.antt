-- ===== src/Manager/Registry.antt =====
-- `LoggerManager::getLogger`: one logger for each name.
use sylar_server_study.Base.{
  ℕ, suc, zero, Bool, true, false, Text, text_eq, text_eq_iff, text_eq_refl, find, assign,
  find-assign, if◌then◌else◌, List, [], ◌∷◌, ◌++◌, none, some, get_elem?, modify, length, all_mono,
  all-append_one, get_elem?-append_new, get_elem?-append_old, get_elem?-lt, ◌≡◌, ◌≢◌, refl, ◌∙◌,
  arith, Option-cases, inl, inr, Bool-cases,
}
use sylar_server_study.Logger.{Logger, Store, new_logger}
use sylar_server_study.Logger.Valid.{logger_ok, IsValid, root_ok-append}
use sylar_server_study.Manager.{get_logger}

-- The pointer names a logger of that name.
abbrev pub is_named : List Logger → ℕ → Text → Bool
is_named ls p k = elim (get_elem? ls p) [ none ↦ false | some l ↦ text_eq l.name k ]

-- Every pointer in the map leads to the logger that is named by its key.
abbrev pub IsNamed : Store → Type 0
IsNamed s = (k : Text) (p : ℕ) → find k s.names ≡ some p → is_named s.loggers p k ≡ true

pub is_named-append :
    (ls : List Logger) (l : Logger) (p : ℕ) (k : Text)
    → is_named ls p k ≡ true
    → is_named (ls ++ l ∷ []) p k ≡ true
is_named-append [] l p k h = cc
is_named-append (m ∷ ls) l zero k h = h
is_named-append (m ∷ ls) l (suc p) k h = is_named-append ls l p k h

pub is_named-modify :
    (ls : List Logger) (q p : ℕ) (f : Logger → Logger) (k : Text)
    → ((l : Logger) → (f l).name ≡ l.name)
    → is_named (modify ls q f) p k ≡ is_named ls p k
is_named-modify [] q p f k h = refl
is_named-modify (l ∷ ls) zero zero f k h = rw (h l)
is_named-modify (l ∷ ls) zero (suc p) f k h = refl
is_named-modify (l ∷ ls) (suc q) zero f k h = refl
is_named-modify (l ∷ ls) (suc q) (suc p) f k h = is_named-modify ls q p f k h

-- Two names that lead to one logger are one name.
pub names_injective :
    (s : Store) (j k : Text) (p : ℕ)
    → IsNamed s
    → find j s.names ≡ some p
    → find k s.names ≡ some p
    → j ≡ k
names_injective s j k p v a b = elim (Option-cases (get_elem? s.loggers p)) [
  | inl q ↦ absurd (ground (arith, v j p a))
  | inr (l, q) ↦ ground (arith, v j p a, v k p b, text_eq_iff l.name j, text_eq_iff l.name k)
]

pub get_logger-IsValid : (s : Store) (name : Text) → IsValid s → IsValid (get_logger s name).0
unfolding get_logger new_logger
get_logger-IsValid s name v = elim (Option-cases (find name s.names)) [
  | inr (p, q) ↦ rw (q, get_logger) v
  | inl q ↦
      rw (q, get_logger)
        (record {
          loggers_ok =
              all-append_one (logger_ok s.appenders ls) s.loggers new
                (all_mono (logger_ok s.appenders s.loggers) (logger_ok s.appenders ls) s.loggers
                  kept v.loggers_ok)
                (root_ok-append s.loggers new (some s.root) v.manager_root);
          coherent = v.coherent;
          manager_root = root_ok-append s.loggers new (some s.root) v.manager_root;
        })
]
  where
    new : Logger
    new = record (new_logger name) { root = some s.root }

    ls : List Logger
    ls = s.loggers ++ new ∷ []

    kept :
        (l : Logger) → logger_ok s.appenders s.loggers l ≡ true → logger_ok s.appenders ls l ≡ true
    kept l h = ground (arith, root_ok-append s.loggers new l.root)

pub record Registered (s : Store) (name : Text) (t : Store) (p : ℕ) : Type 0 where
  pub found : find name t.names ≡ some p
  pub named : is_named t.loggers p name ≡ true
  pub others : (j : Text) → name ≢ j → find j t.names ≡ find j s.names
  pub kept : (q : ℕ) (l : Logger) → get_elem? s.loggers q ≡ some l → get_elem? t.loggers q ≡ some l
  pub appenders : t.appenders ≡ s.appenders
  pub valid : IsValid t
  pub still_named : IsNamed t

abbrev fresh : Store → Text → Logger
fresh s name = record (new_logger name) { root = some s.root }

abbrev added : Store → Text → Store
added s name = record s {
  loggers = s.loggers ++ fresh s name ∷ [];
  names = assign name (length s.loggers) s.names;
}

pub get_logger_old :
    (s : Store) (name : Text) (p : ℕ) → find name s.names ≡ some p → get_logger s name ≡ (s, p)
unfolding get_logger
get_logger_old s name p q = rw (q, get_logger)

get_logger-added :
    (s : Store) (name : Text)
    → find name s.names ≡ none
    → get_logger s name ≡ (added s name, length s.loggers)
unfolding get_logger
get_logger-added s name q = rw (q, get_logger)

new_logger_name : (name : Text) → (new_logger name).name ≡ name
unfolding new_logger
new_logger_name name = refl

added-IsNamed :
    (s : Store) (name : Text) (new : Logger)
    → IsNamed s
    → new.name ≡ name
    → IsNamed (record s {
      loggers = s.loggers ++ new ∷ [];
      names = assign name (length s.loggers) s.names;
    })
added-IsNamed s name new v e k p q = elim (Bool-cases (text_eq name k)) [
  | inl same ↦ ground (
    arith,
    find-assign name k (length s.loggers) s.names,
    get_elem?-append_new s.loggers new,
    text_eq_iff name k,
    text_eq_iff new.name k,
  )
  | inr other ↦ ground (
    arith,
    find-assign name k (length s.loggers) s.names,
    v k p,
    is_named-append s.loggers new p k,
  )
]

pub get_logger-Registered :
    (s : Store) (name : Text)
    → IsValid s
    → IsNamed s
    → Registered s name (get_logger s name).0 (get_logger s name).1
get_logger-Registered s name v n = elim (Option-cases (find name s.names)) [
  | inr (p, q) ↦ rw (get_logger_old s name p q) (present p q)
  | inl q ↦ rw (get_logger-added s name q) (absent q)
]
  where
    present : (p : ℕ) → find name s.names ≡ some p → Registered s name s p
    present p q = record {
      found = q;
      named = n name p q;
      others = λ j h. refl;
      kept = λ r l h. h;
      appenders = refl;
      valid = v;
      still_named = n;
    }

    absent : find name s.names ≡ none → Registered s name (added s name) (length s.loggers)
    absent q = record {
      found = find-assign name name (length s.loggers) s.names ∙ rw text_eq_refl;
      named = ground (
        arith,
        get_elem?-append_new s.loggers (fresh s name),
        new_logger_name name,
        text_eq_refl name,
      );
      others =
          λ j h. ground (arith, find-assign name j (length s.loggers) s.names, text_eq_iff name j);
      kept = λ r l h.
          get_elem?-append_old s.loggers (fresh s name ∷ []) r (get_elem?-lt s.loggers r l h) ∙ h;
      appenders = refl;
      valid = rw (get_logger-added s name q) at (get_logger-IsValid s name v);
      still_named = added-IsNamed s name (fresh s name) n (new_logger_name name);
    }

-- Whatever the name, `getLogger` returns a logger of that name, if the map leads to loggers of the
-- names that are its keys. The map leads from that name to it from then on, and from every other name
-- where it did; no appender changes.
pub find-get_logger :
    (s : Store) (name j : Text)
    → IsNamed s
    → (find j (get_logger s name).0.names
        ≡ (if text_eq name j then some (get_logger s name).1 else find j s.names))
      × (is_named (get_logger s name).0.loggers (get_logger s name).1 name ≡ true)
      × ((get_logger s name).0.appenders ≡ s.appenders)
find-get_logger s name j n = elim (Option-cases (find name s.names)) [
  | inr (p, q) ↦
      rw (get_logger_old s name p q) (ground (arith, q, text_eq_iff name j), n name p q, refl)
  | inl q ↦ rw (get_logger-added s name q) (
    find-assign name j (length s.loggers) s.names,
    ground (
      arith,
      get_elem?-append_new s.loggers (fresh s name),
      new_logger_name name,
      text_eq_refl name,
    ),
    refl,
  )
]

-- Asking `getLogger` twice for a name gives the same logger, and changes nothing the second time.
pub get_logger_twice :
    (s : Store) (name : Text) → get_logger (get_logger s name).0 name ≡ get_logger s name
get_logger_twice s name = elim (Option-cases (find name s.names)) [
  | inr (p, q) ↦ rw (get_logger_old s name p q) (get_logger_old s name p q)
  | inl q ↦ rw (get_logger-added s name q) (
      get_logger_old (added s name) name (length s.loggers)
        (find-assign name name (length s.loggers) s.names ∙ rw text_eq_refl))
]
