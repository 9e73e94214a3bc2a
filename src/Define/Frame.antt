-- ===== src/Define/Frame.antt =====
-- What a change of the logger of one name leaves alone, and facts about loggers by name.
use sylar_server_study.Base.{
  ℕ, Text, find, some, List, get_elem?, ◌≡◌, ◌≢◌, refl, ◌∙◌, arith, Option-cases, inl, inr, true,
}
use sylar_server_study.Logger.{Appender, Logger, Store}
use sylar_server_study.Logger.Valid.{IsValid}
use sylar_server_study.Manager.{get_logger}
use sylar_server_study.Manager.Registry.{
  IsNamed, is_named, names_injective, Registered, get_logger-Registered,
}
use sylar_server_study.Define.Changed.{Extends, Changed}

pub record Frame (name : Text) (s t : Store) : Type 0 where
  pub others : (j : Text) → name ≢ j → find j t.names ≡ find j s.names
  pub kept :
      (j : Text) (q : ℕ) (l : Logger)
      → name ≢ j
      → find j s.names ≡ some q
      → get_elem? s.loggers q ≡ some l
      → get_elem? t.loggers q ≡ some l
  pub grows : Extends s.appenders t.appenders
  pub valid : IsValid t
  pub named : IsNamed t

pub Frame-refl : (name : Text) (s : Store) → IsValid s → IsNamed s → Frame name s s
Frame-refl name s v n = record {
  others = λ j h. refl;
  kept = λ j q l h f g. g;
  grows = λ i x h. h;
  valid = v;
  named = n;
}

-- The logger of that name is there.
pub registered_logger :
    (ls : List Logger) (p : ℕ) (name : Text)
    → is_named ls p name ≡ true
    → (l : Logger) × (get_elem? ls p ≡ some l)
registered_logger ls p name h = elim (Option-cases (get_elem? ls p)) [
  | inl q ↦ absurd (ground arith)
  | inr found ↦ found
]

-- A change of the logger that `getLogger` returns.
pub Changed-Frame :
    (s : Store) (name : Text) (t : Store)
    → IsValid s
    → IsNamed s
    → Changed (get_logger s name).1 (get_logger s name).0 t
    → Frame name s t
Changed-Frame s name t v n c = record {
  others = λ j h. rw c.names (r.others j h);
  kept = λ j q l h f g. c.others q (apart j q h f) ∙ r.kept q l g;
  grows = λ i x h. c.grows i x (rw r.appenders h);
  valid = c.valid;
  named = c.named;
}
  where
    s' : Store
    s' = (get_logger s name).0

    r : Registered s name s' (get_logger s name).1
    r = get_logger-Registered s name v n

    apart : (j : Text) (q : ℕ) → name ≢ j → find j s.names ≡ some q → (get_logger s name).1 ≢ q
    apart j q h f e =
        h (names_injective s' name j q r.still_named (rw e at r.found) (r.others j h ∙ f))

-- A fact about the logger of a name, which more appenders do not upset.
pub record Holds (name : Text) (Q : List Appender → Logger → Type 0) (s : Store) : Type 0 where
  pub pointer : ℕ
  pub logger : Logger
  pub found : find name s.names ≡ some pointer
  pub there : get_elem? s.loggers pointer ≡ some logger
  pub fact : Q s.appenders logger

pub Frame-Holds :
    {other name : Text} {s t : Store} (Q : List Appender → Logger → Type 0)
    → ((xs ys : List Appender) (l : Logger) → Extends xs ys → Q xs l → Q ys l)
    → other ≢ name
    → Frame other s t
    → Holds name Q s
    → Holds name Q t
Frame-Holds {name} {s} {t} Q mono ne f h = record {
  pointer = h.pointer;
  logger = h.logger;
  found = f.others name ne ∙ h.found;
  there = f.kept name h.pointer h.logger ne h.found h.there;
  fact = mono s.appenders t.appenders h.logger f.grows h.fact;
}
