-- ===== src/Manager/Named.antt =====
-- `LoggerManager::LoggerManager`: the map of names of a new manager.
use sylar_server_study.Base.{
  ℕ, Bool, true, Text, codes, text_eq, find, assign, get_elem?, [], none, some, ◌≡◌, ◌∙◌, refl,
  subst, eq_of_some, Bool-cases, Option-cases, inl, inr,
}
use sylar_server_study.Logger.{
  Store, at_appender, set_appender_formatter, add_appender, new_file_appender, new_stdout_appender,
  new_logger,
}
use sylar_server_study.Formatter.Items.{make}
use sylar_server_study.Manager.{new_manager, root_name, rooted, console_pattern, file_pattern}
use sylar_server_study.Manager.Registry.{IsNamed, is_named, is_named-modify}

-- The names that lead to loggers of these names, and to the first logger under its own.
abbrev NamesRoot : Store → Type 0
NamesRoot s = (s.names ≡ []) × ((k : Text) → is_named s.loggers 0 k ≡ text_eq root_name k)

add_appender-NamesRoot : (s : Store) (p a : ℕ) → NamesRoot s → NamesRoot (add_appender s p a)
unfolding add_appender
add_appender-NamesRoot s p a (n, l) = elim (Option-cases (get_elem? s.loggers p)) [
  | inl q ↦ rw (q, add_appender) (n, l)
  | inr (g, q) ↦ rw (q, add_appender) (n, λ k. is_named-modify s.loggers p 0 _ k (λ h. refl) ∙ l k)
]

new_file_appender-NamesRoot :
    (openable : Text → Bool) (s : Store) (name : Text) (now : ℕ)
    → NamesRoot s
    → NamesRoot (new_file_appender openable s name now)
unfolding new_file_appender
new_file_appender-NamesRoot openable s name now h = elim (Bool-cases (openable name)) [
  | inl good ↦ rw good h
  | inr bad ↦ rw bad h
]

-- The root logger, alone and under its name.
named_root : (s : Store) → NamesRoot s → IsNamed (record s { names = assign root_name 0 s.names })
unfolding assign find
named_root s (n, l) k p h = elim (Bool-cases (text_eq root_name k)) [
  | inl here ↦
      let e : 0 ≡ p = eq_of_some (rw (n, here) at h) in
      subst (λ q. is_named s.loggers q k ≡ true) e (l k ∙ here)
  | inr there ↦ let e : none ≡ some p = rw (n, there) at h in absurd (cc)
]

pub new_manager-IsNamed : (openable : Text → Bool) (now : ℕ) → IsNamed (new_manager openable now)
unfolding new_manager new_stdout_appender new_logger
new_manager-IsNamed openable now = named_root s4 (
    add_appender-NamesRoot (at_appender s3 1 (set_appender_formatter (some (make file_pattern)))) 0
      1
      (new_file_appender-NamesRoot openable s2 (codes "root.log") now
        (add_appender-NamesRoot s1 0 0 (refl, λ k. refl))))
  where
    s1 : Store
    s1 =
        at_appender (new_stdout_appender rooted) 0
          (set_appender_formatter (some (make console_pattern)))

    s2 : Store
    s2 = add_appender s1 0 0

    s3 : Store
    s3 = new_file_appender openable s2 (codes "root.log") now

    s4 : Store
    s4 = add_appender (at_appender s3 1 (set_appender_formatter (some (make file_pattern)))) 0 1
