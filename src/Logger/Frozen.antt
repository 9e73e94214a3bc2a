-- ===== src/Logger/Frozen.antt =====
-- `Logger::setFormatter` and the appenders that took their formatter from the logger.
use sylar_server_study.Base.{
  ℕ, true, if◌then◌else◌, List, [], ◌∷◌, some, get_elem?, modify, all, all-get, modify_fixed, ◌≡◌,
  refl, arith, Option-cases, inl, inr, Bool-cases,
}
use sylar_server_study.Formatter.Items.{Formatter}
use sylar_server_study.Logger.{
  Appender, Logger, Store, at_logger, refresh, refresh_all, set_formatter,
}
use sylar_server_study.Logger.Valid.{is_some, is_ready, logger_ok, is_coherent, IsValid}

refresh_fixed :
    (val : Formatter) (x : Appender)
    → is_coherent x ≡ true
    → is_some x.formatter ≡ true
    → refresh val x ≡ x
unfolding refresh
refresh_fixed val x c h = ground arith

module _ (val : Formatter) where
  modify-refresh :
      (xs : List Appender) (a : ℕ)
      → all is_coherent xs ≡ true
      → is_ready xs a ≡ true
      → modify xs a (refresh val) ≡ xs
  modify-refresh xs a c h = elim (Option-cases (get_elem? xs a)) [
    | inl q ↦ absurd (ground arith)
    | inr (x, q) ↦
        modify_fixed xs a (refresh val) x q
          (refresh_fixed val x (all-get is_coherent xs a x c q) (ground arith))
  ]

  refresh_all-appenders :
      (bs : List ℕ) (s : Store)
      → all is_coherent s.appenders ≡ true
      → all (is_ready s.appenders) bs ≡ true
      → refresh_all val bs s ≡ s
  unfolding refresh_all
  refresh_all-appenders [] s c h = refl
  refresh_all-appenders (a ∷ bs) s c h =
      rw (modify-refresh s.appenders a c (ground arith))
        (refresh_all-appenders bs s c (ground arith))

-- In a well-formed store a new formatter of a logger reaches none of its appenders: `addAppender`
-- hands the logger's formatter on by `LogAppender::setFormatter`, which sets `m_has_formatter`, so that
-- `Logger::setFormatter` takes each of them for one with a formatter of its own. Only the logger's
-- own formatter changes, and only if the new one is not in error.
pub set_formatter_lem :
    (s : Store) (p : ℕ) (val : Formatter) (l : Logger)
    → IsValid s
    → get_elem? s.loggers p ≡ some l
    → set_formatter s p val
      ≡ (if val.is_error then s else at_logger s p (λ k. record k { formatter = val }))
unfolding set_formatter
set_formatter_lem s p val l v q = elim (Bool-cases val.is_error) [
  | inl bad ↦ simp bad
  | inr good ↦ simp good (
      rw (q, set_formatter)
        (refresh_all-appenders val l.appenders _ v.coherent
          (ground (arith, all-get (logger_ok s.appenders s.loggers) s.loggers p l v.loggers_ok q))))
]
