-- ===== src/Logger/Operations.antt =====
-- The operations of loggers and appenders keep a store well formed.
use sylar_server_study.Base.{
  some, ℕ, suc, zero, Bool, true, Text, codes, List, [], ◌∷◌, ◌++◌, get_elem?, modify, length, all,
  all_mono, all-append_one, ◌≡◌, ◌<◌, refl, arith, Bool-cases, inl, inr, Option-cases,
}
use sylar_server_study.Formatter.Items.{Formatter, make}
use sylar_server_study.Logger.{
  Appender, Logger, Store, at_appender, print_line, name_of, set_appender_formatter, inherit,
  add_appender, erase_first, del_appender, clear_appenders, set_level, refresh, refresh_all,
  set_formatter, set_formatter_pattern, new_stdout_appender, new_file_appender,
}
use sylar_server_study.Logger.Valid.{
  is_ready, logger_ok, is_coherent, IsValid, is_ready-append, at_appender-IsValid,
  at_logger-IsValid,
}

pub set_appender_formatter-IsValid :
    {s : Store} (a : ℕ) (val : Formatter)
    → IsValid s
    → IsValid (at_appender s a (set_appender_formatter (some val)))
unfolding set_appender_formatter
set_appender_formatter-IsValid a val =
    at_appender-IsValid a (set_appender_formatter (some val)) (λ x h. refl) (λ x h. refl)

pub set_appender_level-IsValid :
    {s : Store} (a level : ℕ)
    → IsValid s
    → IsValid (at_appender s a (λ x. record x { level = level }))
set_appender_level-IsValid a level =
    at_appender-IsValid a (λ x. record x { level = level }) (λ x h. h) (λ x h. h)

inherit-IsValid :
    {s : Store} (a : ℕ) (val : Formatter) → IsValid s → IsValid (at_appender s a (inherit val))
unfolding inherit
inherit-IsValid a val =
    at_appender-IsValid a (inherit val) (λ x h. ground arith) (λ x h. ground arith)

is_ready-inherit :
    (xs : List Appender) (a : ℕ) (val : Formatter)
    → a < length xs
    → is_ready (modify xs a (inherit val)) a ≡ true
unfolding inherit
is_ready-inherit [] a val h = elim h [ ]
is_ready-inherit (x ∷ xs) zero val h = ground arith
is_ready-inherit (x ∷ xs) (suc a) val h = is_ready-inherit xs a val (ground arith)

pub add_appender-IsValid :
    {s : Store} (p a : ℕ) → a < length s.appenders → IsValid s → IsValid (add_appender s p a)
unfolding add_appender
add_appender-IsValid {s} p a h v = elim (Option-cases (get_elem? s.loggers p)) [
  | inl q ↦ rw (q, add_appender) v
  | inr (l, q) ↦
      rw (q, add_appender)
        (at_logger-IsValid {s = at_appender s a (inherit l.formatter)} p
          (λ k. record k { appenders = k.appenders ++ a ∷ [] }) (λ k. refl)
          (λ k r.
            all-append_one (is_ready (modify s.appenders a (inherit l.formatter))) k.appenders a r
              (is_ready-inherit s.appenders a l.formatter h))
          (inherit-IsValid a l.formatter v))
]

all-erase_first :
    (q : ℕ → Bool) (a : ℕ) (bs : List ℕ) → all q bs ≡ true → all q (erase_first a bs) ≡ true
unfolding erase_first
all-erase_first q a [] h = refl
all-erase_first q a (b ∷ bs) h = ground (arith, all-erase_first q a bs)

pub del_appender-IsValid : {s : Store} (p a : ℕ) → IsValid s → IsValid (del_appender s p a)
unfolding del_appender
del_appender-IsValid {s} p a =
    at_logger-IsValid p (λ l. record l { appenders = erase_first a l.appenders }) (λ l. refl)
      (λ l. all-erase_first (is_ready s.appenders) a l.appenders)

pub clear_appenders-IsValid : {s : Store} (p : ℕ) → IsValid s → IsValid (clear_appenders s p)
unfolding clear_appenders
clear_appenders-IsValid p =
    at_logger-IsValid p (λ l. record l { appenders = [] }) (λ l. refl) (λ l h. refl)

pub set_level-IsValid : {s : Store} (p level : ℕ) → IsValid s → IsValid (set_level s p level)
unfolding set_level
set_level-IsValid p level =
    at_logger-IsValid p (λ l. record l { level = level }) (λ l. refl) (λ l h. h)

refresh-IsValid :
    {s : Store} (a : ℕ) (val : Formatter) → IsValid s → IsValid (at_appender s a (refresh val))
unfolding refresh
refresh-IsValid a val =
    at_appender-IsValid a (refresh val) (λ x h. ground arith) (λ x h. ground arith)

refresh_all-IsValid :
    (bs : List ℕ) (val : Formatter) {s : Store} → IsValid s → IsValid (refresh_all val bs s)
unfolding refresh_all
refresh_all-IsValid [] val v = v
refresh_all-IsValid (a ∷ bs) val v = refresh_all-IsValid bs val (refresh-IsValid a val v)

pub set_formatter-IsValid :
    {s : Store} (p : ℕ) (val : Formatter) → IsValid s → IsValid (set_formatter s p val)
unfolding set_formatter
set_formatter-IsValid {s} p val v = elim (Bool-cases val.is_error) [
  | inl bad ↦ rw bad v
  | inr good ↦ rw good (elim (Option-cases (get_elem? s.loggers p)) [
    | inl q ↦ rw (q, set_formatter) v
    | inr (l, q) ↦
        rw (q, set_formatter)
          (refresh_all-IsValid l.appenders val
            (at_logger-IsValid p (λ k. record k { formatter = val }) (λ k. refl) (λ k h. h) v))
  ])
]

pub print_line-IsValid : {s : Store} (t : Text) → IsValid s → IsValid (print_line s t)
print_line-IsValid t v = record {
  loggers_ok = v.loggers_ok;
  coherent = v.coherent;
  manager_root = v.manager_root;
}

pub set_formatter_pattern-IsValid :
    {s : Store} (p : ℕ) (val : Text) → IsValid s → IsValid (set_formatter_pattern s p val)
unfolding set_formatter_pattern
set_formatter_pattern-IsValid {s} p val v = elim (Bool-cases (make val).is_error) [
  | inl bad ↦ simp bad (
      print_line-IsValid
        (codes "Logger::setFormatter name="
          ++ (name_of s p ++ (codes " value=" ++ (val ++ codes " invalid formatter"))))
        v)
  | inr good ↦ simp good (set_formatter-IsValid p (make val) v)
]

-- A new appender stands behind all others, and no logger has it yet.
new_appender-IsValid :
    {s : Store} (x : Appender) (console : Text) (files : List (Text × Text))
    → is_coherent x ≡ true
    → IsValid s
    → IsValid (record s { appenders = s.appenders ++ x ∷ []; console = console; files = files })
new_appender-IsValid {s} x console files h v = record {
  loggers_ok = all_mono (logger_ok s.appenders s.loggers) _ s.loggers ready v.loggers_ok;
  coherent = all-append_one is_coherent s.appenders x v.coherent h;
  manager_root = v.manager_root;
}
  where
    ready :
        (l : Logger)
        → logger_ok s.appenders s.loggers l ≡ true
        → logger_ok (s.appenders ++ x ∷ []) s.loggers l ≡ true
    ready l k = ground (
      arith,
      all_mono (is_ready s.appenders) (is_ready (s.appenders ++ x ∷ [])) l.appenders
          (λ a. is_ready-append s.appenders x a),
    )

pub new_stdout_appender-IsValid : {s : Store} → IsValid s → IsValid (new_stdout_appender s)
unfolding new_stdout_appender
new_stdout_appender-IsValid {s} = new_appender-IsValid _ s.console s.files refl

pub new_file_appender-IsValid :
    (openable : Text → Bool) {s : Store} (filename : Text) (now : ℕ)
    → IsValid s
    → IsValid (new_file_appender openable s filename now)
unfolding new_file_appender
new_file_appender-IsValid openable {s} filename now v = elim (Bool-cases (openable filename)) [
  | inl q ↦ rw q (new_appender-IsValid _ _ _ refl v)
  | inr q ↦ rw q (new_appender-IsValid _ _ _ refl v)
]
