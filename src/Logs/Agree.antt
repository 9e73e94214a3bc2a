-- ===== src/Logs/Agree.antt =====
-- sylar/log.cc: the variable "logs" and the loggers agree.
use sylar_server_study.Base.{
  ℕ, Bool, Text, List, [], ◌∷◌, Option, none, some, ◌≡◌, ◌≢◌, sym, subst, Bool-cases, Option-cases,
  inl, inr,
}
use sylar_server_study.Logger.{Store}
use sylar_server_study.Logger.Valid.{IsValid}
use sylar_server_study.Manager.Registry.{IsNamed}
use sylar_server_study.Manager.Named.{new_manager-IsNamed}
use sylar_server_study.Manager.Reach.{new_manager-IsValid}
use sylar_server_study.Define.{LogDefine, find_define}
use sylar_server_study.Define.Yaml.{DefineNode}
use sylar_server_study.Define.Frame.{Holds}
use sylar_server_study.Define.Each.{Distinct, Each}
use sylar_server_study.Define.Change.{AsDefined, AsDefined-Extends, is_changed}
use sylar_server_study.Define.Listener.{HasKnown, on_change-Applied, present-Spares}
use sylar_server_study.Config.{from_string, set_value, call_all}
use sylar_server_study.Container.Yaml.{Yaml}
use sylar_server_study.Logs.{World, LogsVar, logs_cast, listener, launched}
use sylar_server_study.Logs.Names.{logs-from_str, unchanged-Spares, unchanged_found}

-- Every definition of the variable is in force: there is a logger of its name with its level and its
-- appenders. The names of the set are distinct, and the store is well formed.
pub record Agrees (value : List LogDefine) (s : Store) : Type 0 where
  pub distinct : Distinct value
  pub known : Each HasKnown value
  pub valid : IsValid s
  pub named : IsNamed s
  pub in_force : (d : LogDefine) → find_define d.name value ≡ some d → Holds d.name (AsDefined d) s

module _ (openable : Text → Bool) where
  -- The variable has the listener, and no other.
  abbrev pub Listens : LogsVar → Type 0
  Listens v = (id : ℕ) × (v.cbs ≡ (id, listener openable) ∷ [])

  listener-Agrees :
      (v : LogsVar) (new : List LogDefine) (w : World)
      → Agrees v.value w.store
      → Distinct new
      → Each HasKnown new
      → Agrees new (listener openable v.value new w).store
  listener-Agrees v new w a dis known =
      let p =
        on_change-Applied openable w.now v.value new w.store a.distinct dis known a.valid a.named in
      record {
        distinct = dis;
        known = known;
        valid = p.valid;
        named = p.named;
        in_force = λ d f. elim (Bool-cases (is_changed v.value d)) [
          | inl changed ↦ p.changed d f changed
          | inr same ↦
              p.spared d.name (AsDefined d) (AsDefined-Extends d)
                (unchanged-Spares v.value d new dis f same) (present-Spares new d.name d v.value f)
                (a.in_force d (unchanged_found v.value d same))
        ];
      }

  pub from_string-Agrees :
      (y : Yaml) (view : y.Doc → Option DefineNode) (build : DefineNode → y.Doc) (v : LogsVar)
      (val : Text) (w : World)
      → Listens v
      → Agrees v.value w.store
      → let r = from_string (logs_cast y view build) v val w in
        Listens r.0 × Agrees r.0.value r.1.store
  unfolding from_string set_value call_all
  from_string-Agrees y view build v val w (id, l) a =
      let c = logs_cast y view build in
      elim (Option-cases (c.from_str val)) [
        | inl bad ↦ rw (bad, from_string) ((id, l), a)
        | inr (new, good) ↦
            let k = logs-from_str y view build val new good in
            rw (good, from_string)
              (elim (Bool-cases (c.equal new v.value)) [
                | inl same ↦ rw (same, set_value) ((id, l), a)
                | inr other ↦
                    rw (other, set_value)
                      (
                        (id, l),
                        subst (λ cbs. Agrees new (call_all cbs v.value new w).store) (sym l)
                            (listener-Agrees v new w a k.0 k.1),
                      )
              ])
      ]

  pub launched-Agrees : (now : ℕ) → Agrees [] (launched openable now).1.store
  unfolding find_define
  launched-Agrees now = record {
    distinct = tt;
    known = tt;
    valid = new_manager-IsValid openable now;
    named = new_manager-IsNamed openable now;
    in_force = λ d f. absurd (none_found d f);
  }
    where
      none_found : (d : LogDefine) → none ≢ some d
      none_found d e = cc
