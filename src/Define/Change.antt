-- ===== src/Define/Change.antt =====
-- The listener of the variable "logs" puts a new configuration into effect.
use sylar_server_study.Base.{
  ℕ, Bool, true, false, not, Text, List, [], none, some, get_elem?-modify_self, ◌≡◌, refl, arith,
  Bool-cases, Option-cases, inl, inr,
}
use sylar_server_study.Logger.{Appender, Logger, Store, set_level, clear_appenders}
use sylar_server_study.Logger.Valid.{IsValid}
use sylar_server_study.Logger.Operations.{set_level-IsValid, clear_appenders-IsValid}
use sylar_server_study.Manager.{get_logger}
use sylar_server_study.Manager.Registry.{IsNamed, get_logger-Registered}
use sylar_server_study.Define.{LogDefine, define_eq, find_define, configure, on_new, on_old}
use sylar_server_study.Define.Changed.{Extends, Changed-trans, at_logger-Changed}
use sylar_server_study.Define.Matches.{MatchesAll, MatchesAll-Extends, AllKnown}
use sylar_server_study.Define.Configure.{configure_logger-AllGrown}
use sylar_server_study.Define.Frame.{Frame, Frame-refl, registered_logger, Changed-Frame, Holds}

-- The logger has the level of the definition, and one appender for each of its appenders, in order.
abbrev pub AsDefined : LogDefine → List Appender → Logger → Type 0
AsDefined d xs l = (l.level ≡ d.level) × MatchesAll xs l.appenders d.appenders

-- The logger of a removed definition: no event passes its level, and it has no appenders.
abbrev pub IsSilent : List Appender → Logger → Type 0
IsSilent xs l = (l.level ≡ 100) × (l.appenders ≡ [])

pub AsDefined-Extends :
    (d : LogDefine) (xs ys : List Appender) (l : Logger)
    → Extends xs ys
    → AsDefined d xs l
    → AsDefined d ys l
AsDefined-Extends d xs ys l e (h, m) = (h, MatchesAll-Extends xs ys l.appenders d.appenders e m)

-- The definition is new, or differs from the old one of its name.
abbrev pub is_changed : List LogDefine → LogDefine → Bool
is_changed old d = elim (find_define d.name old) [ none ↦ true | some d' ↦ not (define_eq d d') ]

abbrev pub is_removed : List LogDefine → LogDefine → Bool
is_removed new d = elim (find_define d.name new) [ none ↦ true | some d' ↦ false ]

module _ (openable : Text → Bool) (now : ℕ) where
  configure_lem :
      (s : Store) (d : LogDefine)
      → AllKnown d.appenders
      → IsValid s
      → IsNamed s
      → Frame d.name s (configure openable now s d)
        × Holds d.name (AsDefined d) (configure openable now s d)
  unfolding configure
  configure_lem s d known v n =
      let r = get_logger-Registered s d.name v n in
      let s' = (get_logger s d.name).0 in
      let p = (get_logger s d.name).1 in
      let (l, q) = registered_logger s'.loggers p d.name r.named in
      let g = configure_logger-AllGrown openable now s' p d l known q r.valid r.still_named in
      (
        Changed-Frame s d.name _ v n g.changed,
        record {
          pointer = p;
          logger = g.at.0;
          found = rw g.changed.names r.found;
          there = g.at.1;
          fact = (g.at.2, rw g.at.3 g.matches);
        },
      )

  on_new_changed :
      (old : List LogDefine) (s : Store) (d : LogDefine)
      → is_changed old d ≡ true
      → on_new openable now old s d ≡ configure openable now s d
  unfolding on_new
  on_new_changed old s d h = elim (Option-cases (find_define d.name old)) [
    | inl q ↦ rw (q, on_new) refl
    | inr (d', q) ↦ rw (q, on_new) (simp (rw (q, is_changed) at h) refl)
  ]

  pub on_new_same :
      (old : List LogDefine) (s : Store) (d : LogDefine)
      → is_changed old d ≡ false
      → on_new openable now old s d ≡ s
  unfolding on_new
  on_new_same old s d h = elim (Option-cases (find_define d.name old)) [
    | inl q ↦ absurd (ground (arith, q, h))
    | inr (d', q) ↦ rw (q, on_new) (simp (rw (q, is_changed) at h) refl)
  ]

  pub on_new-Frame :
      (old : List LogDefine) (s : Store) (d : LogDefine)
      → AllKnown d.appenders
      → IsValid s
      → IsNamed s
      → Frame d.name s (on_new openable now old s d)
        × (is_changed old d ≡ true → Holds d.name (AsDefined d) (on_new openable now old s d))
  on_new-Frame old s d known v n = elim (Bool-cases (is_changed old d)) [
    | inl yes' ↦
        let (f, h) = configure_lem s d known v n in rw (on_new_changed old s d yes') (f, λ c. h)
    | inr no' ↦
        rw (on_new_same old s d no') (Frame-refl d.name s v n, λ c. absurd (ground (arith, c, no')))
  ]

  pub on_old-Frame :
      (new : List LogDefine) (s : Store) (d : LogDefine)
      → IsValid s
      → IsNamed s
      → Frame d.name s (on_old openable now new s d)
        × (is_removed new d ≡ true → Holds d.name IsSilent (on_old openable now new s d))
  unfolding on_old set_level clear_appenders
  on_old-Frame new s d v n = elim (Option-cases (find_define d.name new)) [
    | inr (d', q) ↦ rw (q, on_old) (Frame-refl d.name s v n, λ c. absurd (ground (arith, c, q)))
    | inl q ↦
        let r = get_logger-Registered s d.name v n in
        let s' = (get_logger s d.name).0 in
        let p = (get_logger s d.name).1 in
        let (l, there) = registered_logger s'.loggers p d.name r.named in
        let mute : Logger → Logger = λ k. record k { level = 100 } in
        let clear : Logger → Logger = λ k. record k { appenders = [] } in
        let c1 =
          at_logger-Changed s' p mute (λ k. refl) r.still_named (set_level-IsValid p 100 r.valid) in
        let c2 =
          at_logger-Changed (set_level s' p 100) p clear (λ k. refl) c1.named
            (clear_appenders-IsValid p c1.valid) in
        rw (q, on_old)
          (
            Changed-Frame s d.name _ v n (Changed-trans c1 c2),
            λ c. record {
              pointer = p;
              logger = clear (mute l);
              found = r.found;
              there =
                  get_elem?-modify_self (set_level s' p 100).loggers p clear (mute l)
                    (get_elem?-modify_self s'.loggers p mute l there);
              fact = (refl, refl);
            },
          )
  ]

  pub on_old_same :
      (new : List LogDefine) (s : Store) (d : LogDefine)
      → is_removed new d ≡ false
      → on_old openable now new s d ≡ s
  unfolding on_old
  on_old_same new s d h = elim (Option-cases (find_define d.name new)) [
    | inl q ↦ absurd (ground (arith, q, h))
    | inr (d', q) ↦ rw (q, on_old) refl
  ]
