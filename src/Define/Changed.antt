-- ===== src/Define/Changed.antt =====
-- What a change of one logger leaves alone.
use sylar_server_study.Base.{
  ℕ, List, ◌++◌, some, get_elem?, get_elem?-modify_ne, get_elem?-append_old, get_elem?-lt, ◌≡◌, ◌≢◌,
  refl, ◌∙◌,
}
use sylar_server_study.Level.{Level}
use sylar_server_study.Logger.{Appender, Logger, Store, at_logger}
use sylar_server_study.Logger.Valid.{IsValid}
use sylar_server_study.Manager.Registry.{IsNamed, is_named-modify}

-- The appenders that were there are there, unchanged.
abbrev pub Extends : List Appender → List Appender → Type 0
Extends xs ys = (i : ℕ) (x : Appender) → get_elem? xs i ≡ some x → get_elem? ys i ≡ some x

pub record Changed (p : ℕ) (s t : Store) : Type 0 where
  pub names : t.names ≡ s.names
  pub others : (q : ℕ) → p ≢ q → get_elem? t.loggers q ≡ get_elem? s.loggers q
  pub grows : Extends s.appenders t.appenders
  pub valid : IsValid t
  pub named : IsNamed t

pub Changed-trans : {p : ℕ} {s t u : Store} → Changed p s t → Changed p t u → Changed p s u
Changed-trans a b = record {
  names = b.names ∙ a.names;
  others = λ q h. b.others q h ∙ a.others q h;
  grows = λ i x h. b.grows i x (a.grows i x h);
  valid = b.valid;
  named = b.named;
}

pub Changed-refl : {p : ℕ} {s : Store} → IsValid s → IsNamed s → Changed p s s
Changed-refl v n = record {
  names = refl;
  others = λ q h. refl;
  grows = λ i x h. h;
  valid = v;
  named = n;
}

pub at_logger-IsNamed :
    (s : Store) (p : ℕ) (f : Logger → Logger)
    → ((l : Logger) → (f l).name ≡ l.name)
    → IsNamed s
    → IsNamed (at_logger s p f)
at_logger-IsNamed s p f h n k q e = is_named-modify s.loggers p q f k h ∙ n k q e

pub at_logger-Changed :
    (s : Store) (p : ℕ) (f : Logger → Logger)
    → ((l : Logger) → (f l).name ≡ l.name)
    → IsNamed s
    → IsValid (at_logger s p f)
    → Changed p s (at_logger s p f)
at_logger-Changed s p f h n v = record {
  names = refl;
  others = λ q ne. get_elem?-modify_ne s.loggers p q f ne;
  grows = λ i x e. e;
  valid = v;
  named = at_logger-IsNamed s p f h n;
}

-- The logger at `p` has this level and these appenders.
abbrev pub LoggerAt : Store → ℕ → Level → List ℕ → Type 0
LoggerAt s p level ids =
    (l : Logger) × (get_elem? s.loggers p ≡ some l) × (l.level ≡ level) × (l.appenders ≡ ids)

pub Extends-append : (xs ys : List Appender) → Extends xs (xs ++ ys)
Extends-append xs ys i x h = get_elem?-append_old xs ys i (get_elem?-lt xs i x h) ∙ h
