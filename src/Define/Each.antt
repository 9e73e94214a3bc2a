-- ===== src/Define/Each.antt =====
-- A loop over definitions, each of which changes at most the logger of its own name.
use sylar_server_study.Base.{
  Bool, true, false, Text, text_eq, List, [], ◌∷◌, some, ◌≡◌, ◌≢◌, refl, subst, arith, eq_of_some,
  Bool-cases, inl, inr,
}
use sylar_server_study.Logger.{Appender, Logger, Store}
use sylar_server_study.Logger.Valid.{IsValid}
use sylar_server_study.Manager.Registry.{IsNamed}
use sylar_server_study.Define.{LogDefine, find_define}
use sylar_server_study.Define.Changed.{Extends}
use sylar_server_study.Define.Frame.{Frame, Holds, Frame-Holds}

abbrev pub each : (Store → LogDefine → Store) → Store → List LogDefine → Store
each step s [] = s
each step s (d ∷ ds) = each step (step s d) ds

-- No definition of the list that passes the test has this name.
abbrev pub Spares : (LogDefine → Bool) → Text → List LogDefine → Type 0
Spares P name [] = Unit
Spares P name (d ∷ ds) = (P d ≡ true → d.name ≢ name) × Spares P name ds

-- The names differ, as in a set that is ordered by them.
abbrev pub Distinct : List LogDefine → Type 0
Distinct [] = Unit
Distinct (d ∷ ds) = Spares (λ e. true) d.name ds × Distinct ds

abbrev pub Each : (LogDefine → Type 0) → List LogDefine → Type 0
Each Ok [] = Unit
Each Ok (d ∷ ds) = Ok d × Each Ok ds

pub Spares-weaken :
    (P : LogDefine → Bool) (name : Text) (ds : List LogDefine)
    → Spares (λ e. true) name ds
    → Spares P name ds
Spares-weaken P name [] h = tt
Spares-weaken P name (d ∷ ds) (h, hs) = (λ c. h refl, Spares-weaken P name ds hs)

-- A fact that more appenders do not upset.
abbrev pub Grows : (List Appender → Logger → Type 0) → Type 0
Grows Q = (xs ys : List Appender) (l : Logger) → Extends xs ys → Q xs l → Q ys l

module _ (step : Store → LogDefine → Store) (P : LogDefine → Bool)
    (R : LogDefine → List Appender → Logger → Type 0) (R-grows : (d : LogDefine) → Grows (R d))
    (Ok : LogDefine → Type 0) (same : (s : Store) (d : LogDefine) → P d ≡ false → step s d ≡ s)
    (frame : (s : Store) (d : LogDefine)
      → Ok d
      → IsValid s
      → IsNamed s
      → Frame d.name s (step s d) × (P d ≡ true → Holds d.name (R d) (step s d))) where
  step-Holds :
      (s : Store) (d : LogDefine) (name : Text) (Q : List Appender → Logger → Type 0)
      → Grows Q
      → Ok d
      → IsValid s
      → IsNamed s
      → (P d ≡ true → d.name ≢ name)
      → Holds name Q s
      → Holds name Q (step s d)
  step-Holds s d name Q g ok v n apart h = elim (Bool-cases (P d)) [
    | inl yes' ↦ Frame-Holds Q g (apart yes') (frame s d ok v n).0 h
    | inr no' ↦ rw (same s d no') h
  ]

  pub each-Holds :
      (ds : List LogDefine) (s : Store) (name : Text) (Q : List Appender → Logger → Type 0)
      → Grows Q
      → Each Ok ds
      → IsValid s
      → IsNamed s
      → Spares P name ds
      → Holds name Q s
      → Holds name Q (each step s ds)
  each-Holds [] s name Q g ok v n sp h = h
  each-Holds (d ∷ ds) s name Q g (ok, oks) v n (sp, sps) h =
      let f = (frame s d ok v n).0 in
      each-Holds ds (step s d) name Q g oks f.valid f.named sps
        (step-Holds s d name Q g ok v n sp h)

  pub each-IsValid :
      (ds : List LogDefine) (s : Store)
      → Each Ok ds
      → IsValid s
      → IsNamed s
      → IsValid (each step s ds) × IsNamed (each step s ds)
  each-IsValid [] s ok v n = (v, n)
  each-IsValid (d ∷ ds) s (ok, oks) v n =
      let f = (frame s d ok v n).0 in each-IsValid ds (step s d) oks f.valid f.named

  -- Each definition that passes the test has its effect at the end of the loop.
  pub each_done :
      (ds : List LogDefine) (s : Store) (d : LogDefine)
      → Each Ok ds
      → Distinct ds
      → IsValid s
      → IsNamed s
      → find_define d.name ds ≡ some d
      → P d ≡ true
      → Holds d.name (R d) (each step s ds)
  unfolding find_define
  each_done [] s d ok dis v n f p = absurd (ground arith)
  each_done (e ∷ ds) s d (ok, oks) (apart, dis) v n f p =
      let fr = (frame s e ok v n).0 in
      elim (Bool-cases (text_eq e.name d.name)) [
        | inl here ↦
            let e=d : e ≡ d = eq_of_some (rw here at f) in
            each-Holds ds (step s e) d.name (R d) (R-grows d) oks fr.valid fr.named
              (Spares-weaken P d.name ds (subst (λ x. Spares (λ y. true) x.name ds) e=d apart))
              (subst (λ x. Holds x.name (R x) (step s e)) e=d ((frame s e ok v n).1 (rw e=d p)))
        | inr there ↦ each_done ds (step s e) d oks dis fr.valid fr.named (rw there at f) p
      ]
