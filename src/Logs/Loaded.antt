-- ===== src/Logs/Loaded.antt =====
-- sylar/config.cc with sylar/log.cc: declared variables, logging, and the loggers after any actions.
use sylar_server_study.Base.{
  true, false, ℕ, zero, suc, Bool, Text, codes, text_eq, text_eq_iff, find, assign, find-assign,
  ◌==◌, List, [], ◌∷◌, ◌++◌, Option, none, some, length, get_elem?, get_elem?-append_old,
  get_elem?-lt, ◌≡◌, ◌≢◌, refl, subst, ◌∙◌, Bool-cases, Option-cases, inl, inr, eq_of_some,
}
use sylar_server_study.Define.Yaml.{DefineNode}
use sylar_server_study.Formatter.Items.{Outside}
use sylar_server_study.Manager.{get_logger}
use sylar_server_study.Config.{put, add_listener, Cast}
use sylar_server_study.Config.Registry.{
  AnyVar, Configs, lookup, lookup_default, cast_pointer, is_valid_name,
}
use sylar_server_study.Config.Lookup.{outcome, lookup_default-outcome}
use sylar_server_study.Config.Members.{Members}
use sylar_server_study.Container.Yaml.{Yaml}
use sylar_server_study.Logs.{log_defines, log_initer, World, launched}
use sylar_server_study.Logs.Agree.{Agrees, launched-Agrees}
use sylar_server_study.Logs.Logging.{logged-Agrees}
use sylar_server_study.Logs.Events.{
  Element, Action, load, declare, log_to, LeavesLogs, after_action, after_actions, at_launch,
}
use sylar_server_study.Logs.Settled.{Configured, Configured-notices, load_from_yaml-Configured}

module _ (Other : ℕ → Type 0) (other_casts : (t : ℕ) → Cast (Other t)) (openable : Text → Bool)
    (y : Yaml) (view : y.Doc → Option DefineNode) (build : DefineNode → y.Doc)
    (emit : Members → Text) where
  abbrev Variables : Type 0
  Variables = Configs (Element Other) World

  abbrev IsConfigured : Variables → Type 0
  IsConfigured = Configured Other other_casts openable y view build emit

  -- A variable of another name, without listeners, is added.
  added-Configured :
      (s : Variables) (name : Text) (u : AnyVar (Element Other) World)
      → name ≢ codes "logs"
      → u.var.cbs ≡ []
      → IsConfigured s
      → IsConfigured
          (record s { vars = s.vars ++ u ∷ []; datas = assign name (length s.vars) s.datas })
  added-Configured s name u ne none' c = record {
    pointer = c.pointer;
    logs = c.logs;
    found =
        find-assign name (codes "logs") (length s.vars) s.datas ∙ rw (other_name name ne) c.found;
    there =
        get_elem?-append_old s.vars (u ∷ []) c.pointer (get_elem?-lt s.vars c.pointer _ c.there)
        ∙ c.there;
    listens = c.listens;
    agrees = c.agrees;
    quiet = λ q v ne' h. append-quiet s.vars q u v none' (λ h'. c.quiet q v ne' h') h;
  }
    where
      other_name : (name : Text) → name ≢ codes "logs" → text_eq name (codes "logs") ≡ false
      other_name name ne = elim (Bool-cases (text_eq name (codes "logs"))) [
        | inl same ↦ absurd (ne ((text_eq_iff name (codes "logs")).0 same))
        | inr other ↦ other
      ]

      append-quiet :
          (vars : List (AnyVar (Element Other) World)) (q : ℕ) (u v : AnyVar (Element Other) World)
          → u.var.cbs ≡ []
          → (get_elem? vars q ≡ some v → v.var.cbs ≡ [])
          → get_elem? (vars ++ u ∷ []) q ≡ some v
          → v.var.cbs ≡ []
      append-quiet [] zero u v n before h = subst (λ z. z.var.cbs ≡ []) (eq_of_some h) n
      append-quiet [] (suc q) u v n before h = let e : none ≡ some v = h in absurd (cc)
      append-quiet (x ∷ vars) zero u v n before h = before h
      append-quiet (x ∷ vars) (suc q) u v n before h = append-quiet vars q u v n before h

  lookup-Configured :
      (s : Variables) (name : Text) (t : ℕ) → IsConfigured s → IsConfigured (lookup s name t).0
  unfolding lookup
  lookup-Configured s name t c = elim (Option-cases (find name s.datas)) [
    | inl q ↦ rw (q, lookup) c
    | inr (p, q) ↦ elim (Option-cases (get_elem? s.vars p)) [
      | inl r ↦ rw (q, r, lookup, cast_pointer) c
      | inr (v, r) ↦ elim (Bool-cases (v.tag == t)) [
        | inl same ↦ rw (q, r, lookup, cast_pointer) (simp same c)
        | inr other ↦
            rw (q, r, lookup, cast_pointer)
              (simp other (Configured-notices Other other_casts openable y view build emit s _ c))
      ]
    ]
  ]

  outcome-Configured :
      (s : Variables) (name : Text) (t : ℕ) (d : Other t) (e : Text) (o : Option ℕ) (valid : Bool)
      → name ≢ codes "logs"
      → IsConfigured s
      → IsConfigured (outcome s name (suc t) d e o valid).0
  outcome-Configured s name t d e (some p) valid ne c =
      Configured-notices Other other_casts openable y view build emit s _ c
  outcome-Configured s name t d e none false ne c =
      Configured-notices Other other_casts openable y view build emit s _ c
  outcome-Configured s name t d e none true ne c = added-Configured s name _ ne refl c

  declare-Configured :
      (s : Variables) (name : Text) (t : ℕ) (d : Other t) (e : Text)
      → name ≢ codes "logs"
      → IsConfigured s
      → IsConfigured (lookup_default s name (suc t) d e).0
  declare-Configured s name t d e ne c = rw (lookup_default-outcome s name (suc t) d e) (
      outcome-Configured (lookup s name (suc t)).0 name t d e (lookup s name (suc t)).1
        (is_valid_name name) ne (lookup-Configured s name (suc t) c))

  -- Another world, whose loggers agree with "logs".
  world-Configured :
      (s : Variables) (w : World)
      → (c : IsConfigured s) → Agrees c.logs.value w.store
      → IsConfigured (record s { world = w })
  world-Configured s w c a = record {
    pointer = c.pointer;
    logs = c.logs;
    found = c.found;
    there = c.there;
    listens = c.listens;
    agrees = a;
    quiet = c.quiet;
  }

  alone : (q : ℕ) (u v : AnyVar (Element Other) World) → 0 ≢ q → get_elem? (u ∷ []) q ≡ some v → ⊥
  alone zero u v ne h = ne refl
  alone (suc q) u v ne h = let e : none ≡ some v = h in absurd (cc)

  at_launch-Configured :
      (now : ℕ) → IsConfigured (at_launch Other other_casts openable y view build emit now)
  unfolding at_launch find text_eq log_initer add_listener put log_defines
  at_launch-Configured now = record {
    pointer = 0;
    logs = (launched openable now).0;
    found = refl;
    there = refl;
    listens = (1, refl);
    agrees = launched-Agrees openable now;
    quiet = λ q u ne h. absurd (alone q _ u ne h);
  }

module _ (Other : ℕ → Type 0) (other_casts : (t : ℕ) → Cast (Other t)) (openable : Text → Bool)
    (y : Yaml) (view : y.Doc → Option DefineNode) (build : DefineNode → y.Doc)
    (emit : Members → Text) (o : Outside) where
  abbrev Running : Type 0
  Running = Configs (Element Other) World

  abbrev StaysConfigured : Option Running → Type 0
  StaysConfigured r =
      (t : Running) × (r ≡ some t) × Configured Other other_casts openable y view build emit t

  abbrev run_actions : Running → List (Action Other) → Option Running
  run_actions = after_actions Other other_casts openable y view build emit o

  after_actions-Configured :
      (es : List (Action Other)) (s : Running)
      → LeavesLogs es
      → Configured Other other_casts openable y view build emit s
      → StaysConfigured (run_actions s es)
  unfolding after_actions after_action
  after_actions-Configured [] s n c = (s, refl, c)
  after_actions-Configured (load now root ∷ es) s n c = after_actions-Configured es _ n (
      load_from_yaml-Configured Other other_casts openable y view build emit _ root
        (world-Configured Other other_casts openable y view build emit s _ c c.agrees))
  after_actions-Configured (declare name t d e ∷ es) s (ne, n) c =
      after_actions-Configured es _ n
        (declare-Configured Other other_casts openable y view build emit s name t d e ne c)
  after_actions-Configured (log_to now name e ∷ es) s (lo, hi, n) c =
      let (store, q, a) =
        logged-Agrees o openable now c.logs.value s.world.store name
          (record e { logger = (get_logger s.world.store name).1 }) lo hi c.agrees in
      rw (q, after_actions, after_action)
        (after_actions-Configured es _ n
          (world-Configured Other other_casts openable y view build emit s _ c a))

  -- From the launch on, whatever trees are loaded, at whatever times, whatever variables of other
  -- names and types are declared, and whatever events of the five levels are logged through loggers
  -- that are asked for by name: no null pointer is read, the name "logs" leads to the variable that
  -- the launch made, and the loggers agree with it: its definitions have distinct names, and for each
  -- there is a logger of its name with its level, and with one appender for each of its appenders,
  -- in order, of that class, level, file and, where one is given, formatter. "logs" keeps its one
  -- listener, and no other variable has one.
  pub after_actions-at_launch :
      (now : ℕ) (es : List (Action Other))
      → LeavesLogs es
      → StaysConfigured
          (run_actions (at_launch Other other_casts openable y view build emit now) es)
  after_actions-at_launch now es n =
      after_actions-Configured es (at_launch Other other_casts openable y view build emit now) n
        (at_launch-Configured Other other_casts openable y view build emit now)
