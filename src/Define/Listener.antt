-- ===== src/Define/Listener.antt =====
-- What the listener of "logs" brings about.
use sylar_server_study.Base.{
  ℕ, Bool, true, false, Text, find, get_elem?, List, [], ◌∷◌, some, ◌≡◌, refl, sym, arith,
}
use sylar_server_study.Logger.{Appender, Logger, Store}
use sylar_server_study.Logger.Valid.{IsValid}
use sylar_server_study.Manager.Registry.{IsNamed}
use sylar_server_study.Define.{
  LogDefine, find_define, on_new, on_each_new, on_old, on_each_old, on_change,
}
use sylar_server_study.Define.Matches.{AllKnown}
use sylar_server_study.Define.Frame.{Frame, Holds}
use sylar_server_study.Define.Each.{
  Spares, Distinct, Each, Grows, each, each-Holds, each-IsValid, each_done,
}
use sylar_server_study.Define.Change.{
  AsDefined, AsDefined-Extends, IsSilent, is_changed, is_removed, on_new_same, on_new-Frame,
  on_old_same, on_old-Frame,
}

abbrev pub HasKnown : LogDefine → Type 0
HasKnown d = AllKnown d.appenders

abbrev FrameOf :
    (Store → LogDefine → Store)
    → (LogDefine → Bool)
    → (LogDefine → List Appender → Logger → Type 0)
    → Store
    → LogDefine
    → Type 0
FrameOf step P R r d = Frame d.name r (step r d) × (P d ≡ true → Holds d.name (R d) (step r d))

abbrev Any : LogDefine → Type 0
Any d = Unit

Each-Any : (ds : List LogDefine) → Each Any ds
Each-Any [] = tt
Each-Any (d ∷ ds) = (tt, Each-Any ds)

-- What is in the new set is not removed.
pub present-Spares :
    (new : List LogDefine) (name : Text) (d : LogDefine) (ds : List LogDefine)
    → find_define name new ≡ some d
    → Spares (is_removed new) name ds
present-Spares new name d [] f = tt
present-Spares new name d (e ∷ ds) f =
    (λ gone same. absurd (ground (arith, gone, rw (sym same) at f)), present-Spares new name d ds f)

pub record Applied (old new : List LogDefine) (s t : Store) : Type 1 where
  pub valid : IsValid t
  pub named : IsNamed t
  pub changed :
      (d : LogDefine)
      → find_define d.name new ≡ some d
      → is_changed old d ≡ true
      → Holds d.name (AsDefined d) t
  pub removed :
      (d : LogDefine)
      → find_define d.name old ≡ some d
      → is_removed new d ≡ true
      → Holds d.name IsSilent t
  pub spared :
      (name : Text) (Q : List Appender → Logger → Type 0)
      → Grows Q
      → Spares (is_changed old) name new
      → Spares (is_removed new) name old
      → Holds name Q s
      → Holds name Q t

module _ (openable : Text → Bool) (now : ℕ) where
  on_each_new-each :
      (old : List LogDefine) (s : Store) (ds : List LogDefine)
      → on_each_new openable now old s ds ≡ each (on_new openable now old) s ds
  unfolding on_each_new
  on_each_new-each old s [] = refl
  on_each_new-each old s (d ∷ ds) = on_each_new-each old (on_new openable now old s d) ds

  on_each_old-each :
      (new : List LogDefine) (s : Store) (ds : List LogDefine)
      → on_each_old openable now new s ds ≡ each (on_old openable now new) s ds
  unfolding on_each_old
  on_each_old-each new s [] = refl
  on_each_old-each new s (d ∷ ds) = on_each_old-each new (on_old openable now new s d) ds

  pub on_change-Applied :
      (old new : List LogDefine) (s : Store)
      → Distinct old
      → Distinct new
      → Each HasKnown new
      → IsValid s
      → IsNamed s
      → Applied old new s (on_change openable now old new s)
  unfolding on_change
  on_change-Applied old new s dold dnew known v n =
      rw (on_each_old-each new (on_each_new openable now old s new) old, on_each_new-each old s new)
        (record {
          valid = after.0;
          named = after.1;
          changed = λ d f c.
              each-Holds step_old (is_removed new) silent grows_silent Any same_old frame_old old
                mid d.name (AsDefined d) (AsDefined-Extends d) (Each-Any old) between.0 between.1
                (present-Spares new d.name d old f)
                (each_done step_new (is_changed old) AsDefined AsDefined-Extends HasKnown same_new
                  frame_new new s d known dnew v n f c);
          removed = λ d f c.
              each_done step_old (is_removed new) silent grows_silent Any same_old frame_old old mid
                d (Each-Any old) dold between.0 between.1 f c;
          spared = λ name Q g a b h.
              each-Holds step_old (is_removed new) silent grows_silent Any same_old frame_old old
                mid name Q g (Each-Any old) between.0 between.1 b
                (each-Holds step_new (is_changed old) AsDefined AsDefined-Extends HasKnown same_new
                  frame_new new s name Q g known v n a h);
        })
    where
      step_new : Store → LogDefine → Store
      step_new = on_new openable now old

      step_old : Store → LogDefine → Store
      step_old = on_old openable now new

      mid : Store
      mid = each step_new s new

      silent : LogDefine → List Appender → Logger → Type 0
      silent d = IsSilent

      grows_silent : (d : LogDefine) → Grows (silent d)
      grows_silent d xs ys l e h = h

      same_new : (r : Store) (d : LogDefine) → is_changed old d ≡ false → step_new r d ≡ r
      same_new r d = on_new_same openable now old r d

      same_old : (r : Store) (d : LogDefine) → is_removed new d ≡ false → step_old r d ≡ r
      same_old r d = on_old_same openable now new r d

      frame_new :
          (r : Store) (d : LogDefine)
          → HasKnown d
          → IsValid r
          → IsNamed r
          → FrameOf step_new (is_changed old) AsDefined r d
      frame_new r d ok vr nr = on_new-Frame openable now old r d ok vr nr

      frame_old :
          (r : Store) (d : LogDefine)
          → Any d
          → IsValid r
          → IsNamed r
          → FrameOf step_old (is_removed new) silent r d
      frame_old r d ok vr nr = on_old-Frame openable now new r d vr nr

      between : IsValid mid × IsNamed mid
      between =
          each-IsValid step_new (is_changed old) AsDefined AsDefined-Extends HasKnown same_new
            frame_new new s known v n

      after : IsValid (each step_old mid old) × IsNamed (each step_old mid old)
      after =
          each-IsValid step_old (is_removed new) silent grows_silent Any same_old frame_old old mid
            (Each-Any old) between.0 between.1

  -- The listener of "logs" puts every definition of the new set that is new, or differs from the
  -- old one of its name, into effect: there is a logger of that name with its level, and with one
  -- appender for each of its appenders, in order, of that class, level, file and, where one is
  -- given, formatter. The two sets have distinct names each, no appender of the new set has an
  -- unknown type, and the store is well formed, with a map from names to loggers of these names.
  pub on_change-AsDefined :
      (old new : List LogDefine) (s : Store) (d : LogDefine)
      → Distinct old
      → Distinct new
      → Each HasKnown new
      → IsValid s
      → IsNamed s
      → find_define d.name new ≡ some d
      → is_changed old d ≡ true
      → Holds d.name (AsDefined d) (on_change openable now old new s)
  on_change-AsDefined old new s d dold dnew known v n f c =
      (on_change-Applied old new s dold dnew known v n).changed d f c

  -- The listener of "logs" withdraws every definition that is only in the old set: the logger of
  -- its name has no appenders, and the level 100, above all the levels of an event. The two sets
  -- have distinct names each, no appender of the new set has an unknown type, and the store is
  -- well formed, with a map from names to loggers of these names.
  pub on_change-IsSilent :
      (old new : List LogDefine) (s : Store) (d : LogDefine)
      → Distinct old
      → Distinct new
      → Each HasKnown new
      → IsValid s
      → IsNamed s
      → find_define d.name old ≡ some d
      → is_removed new d ≡ true
      → Holds d.name IsSilent (on_change openable now old new s)
  on_change-IsSilent old new s d dold dnew known v n f c =
      (on_change-Applied old new s dold dnew known v n).removed d f c

  -- The listener of "logs" leaves a logger alone whose name no changed and no removed definition
  -- has: it is the same, and found by its name. The two sets have distinct names each, no
  -- appender of the new set has an unknown type, and the store is well formed, with a map from
  -- names to loggers of these names.
  pub on_change-spared :
      (old new : List LogDefine) (s : Store) (name : Text) (p : ℕ) (l : Logger)
      → Distinct old
      → Distinct new
      → Each HasKnown new
      → IsValid s
      → IsNamed s
      → Spares (is_changed old) name new
      → Spares (is_removed new) name old
      → find name s.names ≡ some p
      → get_elem? s.loggers p ≡ some l
      → Holds name (λ xs k. k ≡ l) (on_change openable now old new s)
  on_change-spared old new s name p l dold dnew known v n a b f g =
      (on_change-Applied old new s dold dnew known v n).spared name (λ xs k. k ≡ l)
        (λ xs ys k e h. h) a b
        (record { pointer = p; logger = l; found = f; there = g; fact = refl })
