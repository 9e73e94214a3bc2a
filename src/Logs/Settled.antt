-- ===== src/Logs/Settled.antt =====
-- sylar/config.cc with sylar/log.cc: a tree is loaded, and the loggers agree with "logs".
use sylar_server_study.Base.{
  ℕ, zero, Bool, true, false, Text, codes, find, is_empty, map, to_lower, ◌==◌, if◌then◌else◌, List,
  [], ◌∷◌, ◌++◌, Option, some, get_elem?, modify, get_elem?-modify_self, get_elem?-modify_ne, ◌≡◌,
  ◌≢◌, refl, sym, ap, subst, ◌∙◌, arith, Bool-cases, Option-cases, inl, inr, eq_of_some,
}
use sylar_server_study.Define.Yaml.{DefineNode}
use sylar_server_study.Config.{Cast, Var, from_string, set_value, call_all}
use sylar_server_study.Config.Registry.{AnyVar, Notice, Configs, lookup_base, from_string_at}
use sylar_server_study.Config.Members.{Node, Members, list_all_member}
use sylar_server_study.Config.Load.{load_node, load_all, load_from_yaml, text_of}
use sylar_server_study.Container.Yaml.{Yaml}
use sylar_server_study.Logs.{World, LogsVar, logs_cast}
use sylar_server_study.Logs.Agree.{Agrees, Listens, from_string-Agrees}
use sylar_server_study.Logs.Events.{Element, casts}

module _ (Other : ℕ → Type 0) (other_casts : (t : ℕ) → Cast (Other t)) (openable : Text → Bool)
    (y : Yaml) (view : y.Doc → Option DefineNode) (build : DefineNode → y.Doc)
    (emit : Members → Text) where
  abbrev Variables : Type 0
  Variables = Configs (Element Other) World

  abbrev all_casts : (t : ℕ) → Cast (Element Other t)
  all_casts = casts Other other_casts openable y view build emit

  -- The variable "logs" has its listener, the loggers agree with it, and no other variable has
  -- listeners.
  pub record Configured (s : Variables) : Type 0 where
    pub pointer : ℕ
    pub logs : LogsVar
    pub found : find (codes "logs") s.datas ≡ some pointer
    pub there : get_elem? s.vars pointer ≡ some (record { tag = zero; var = logs })
    pub listens : Listens openable logs
    pub agrees : Agrees logs.value s.world.store
    pub quiet :
        (q : ℕ) (u : AnyVar (Element Other) World)
        → pointer ≢ q
        → get_elem? s.vars q ≡ some u
        → u.var.cbs ≡ []

  -- A variable without listeners changes nothing else.
  from_string-quiet :
      {T : Type 0} (c : Cast T) (v : Var T World) (val : Text) (w : World)
      → v.cbs ≡ []
      → let r = from_string c v val w in (r.0.cbs ≡ []) × (r.1 ≡ w)
  unfolding from_string set_value call_all
  from_string-quiet c v val w h = elim (Option-cases (c.from_str val)) [
    | inl bad ↦ rw (bad, from_string) (h, refl)
    | inr (x, good) ↦
        rw (good, from_string)
          (elim (Bool-cases (c.equal x v.value)) [
            | inl same ↦ rw (same, set_value) (h, refl)
            | inr other ↦ rw (other, set_value) (h, ap (λ cbs. call_all cbs v.value x w) h)
          ])
  ]

  pub Configured-notices :
      (s : Variables) (ns : List Notice) → Configured s → Configured (record s { notices = ns })
  Configured-notices s ns c = record {
    pointer = c.pointer;
    logs = c.logs;
    found = c.found;
    there = c.there;
    listens = c.listens;
    agrees = c.agrees;
    quiet = c.quiet;
  }

  noted-Configured :
      (ok : Bool) (s : Variables) (ns : List Notice)
      → Configured s
      → Configured (if ok then s else record s { notices = ns })
  noted-Configured true s ns c = c
  noted-Configured false s ns c = Configured-notices s ns c

  -- The variable "logs" is set from a text.
  logs-Configured :
      (s : Variables) (val : Text) (c : Configured s)
      → Configured (from_string_at all_casts s c.pointer val)
  unfolding from_string_at
  logs-Configured s val c =
      let r = from_string (logs_cast y view build) c.logs val s.world in
      let a = from_string-Agrees openable y view build c.logs val s.world c.listens c.agrees in
      rw (c.there, from_string_at)
        (noted-Configured r.2 _ _ (record {
          pointer = c.pointer;
          logs = r.0;
          found = c.found;
          there = get_elem?-modify_self s.vars c.pointer _ _ c.there;
          listens = a.0;
          agrees = a.1;
          quiet =
              λ q u ne h. c.quiet q u ne (sym (get_elem?-modify_ne s.vars c.pointer q _ ne) ∙ h);
        }))

  -- One variable without listeners is replaced by another.
  modify-quiet :
      (vars : List (AnyVar (Element Other) World)) (p q : ℕ) (u v u' : AnyVar (Element Other) World)
      → get_elem? vars p ≡ some u
      → v.var.cbs ≡ []
      → (get_elem? vars q ≡ some u' → u'.var.cbs ≡ [])
      → get_elem? (modify vars p (λ x. v)) q ≡ some u'
      → u'.var.cbs ≡ []
  modify-quiet vars p q u v u' there none' before h = elim (Bool-cases (p == q)) [
    | inl same ↦
        let e : p ≡ q = ground arith in
        let h' : get_elem? (modify vars p (λ x. v)) p ≡ some u' =
          subst (λ i. get_elem? (modify vars p (λ x. v)) i ≡ some u') (sym e) h in
        subst (λ z. z.var.cbs ≡ [])
          (eq_of_some (sym (get_elem?-modify_self vars p (λ x. v) u there) ∙ h')) none'
    | inr other ↦
        let ne : p ≢ q = λ e. ground arith in
        before (sym (get_elem?-modify_ne vars p q (λ x. v) ne) ∙ h)
  ]

  -- Another variable is set from a text.
  other-Configured :
      (s : Variables) (p : ℕ) (u : AnyVar (Element Other) World) (val : Text) (c : Configured s)
      → get_elem? s.vars p ≡ some u
      → c.pointer ≢ p
      → Configured (from_string_at all_casts s p val)
  unfolding from_string_at
  other-Configured s p u val c there ne =
      let r = from_string (all_casts u.tag) u.var val s.world in
      let k = from_string-quiet (all_casts u.tag) u.var val s.world (c.quiet p u ne there) in
      rw (there, from_string_at)
        (noted-Configured r.2 _ _ (record {
          pointer = c.pointer;
          logs = c.logs;
          found = c.found;
          there = get_elem?-modify_ne s.vars p c.pointer _ (λ e. ne (sym e)) ∙ c.there;
          listens = c.listens;
          agrees = subst (λ w. Agrees c.logs.value w.store) (sym k.1) c.agrees;
          quiet =
              λ q u' ne' h. modify-quiet s.vars p q u _ u' there k.0 (λ h'. c.quiet q u' ne' h') h;
        }))

  from_string_at-Configured :
      (s : Variables) (p : ℕ) (val : Text)
      → Configured s
      → Configured (from_string_at all_casts s p val)
  unfolding from_string_at
  from_string_at-Configured s p val c = elim (Option-cases (get_elem? s.vars p)) [
    | inl q ↦ rw (q, from_string_at) c
    | inr (u, q) ↦ elim (Bool-cases (c.pointer == p)) [
      | inl same ↦
          let e : c.pointer ≡ p = ground arith in
          subst (λ i. Configured (from_string_at all_casts s i val)) e (logs-Configured s val c)
      | inr other ↦ let ne : c.pointer ≢ p = λ e. ground arith in other-Configured s p u val c q ne
    ]
  ]

  load_node-Configured :
      (s : Variables) (k : Text) (node : Node)
      → Configured s
      → Configured (load_node all_casts emit s k node)
  unfolding load_node
  load_node-Configured s k node c = elim (Bool-cases (is_empty k)) [
    | inl none' ↦ rw (none', load_node) c
    | inr name ↦ elim (Option-cases (lookup_base s (map to_lower k))) [
      | inl q ↦ rw (name, q, load_node) c
      | inr (p, q) ↦ rw (name, q, load_node) (from_string_at-Configured s p (text_of emit node) c)
    ]
  ]

  load_all-Configured :
      (ns : List (Text × Node)) (s : Variables)
      → Configured s
      → Configured (load_all all_casts emit s ns)
  unfolding load_all
  load_all-Configured [] s c = c
  load_all-Configured ((k, node) ∷ ns) s c =
      load_all-Configured ns (load_node all_casts emit s k node) (load_node-Configured s k node c)

  pub load_from_yaml-Configured :
      (s : Variables) (root : Node)
      → Configured s
      → Configured (load_from_yaml all_casts emit s root)
  unfolding load_from_yaml
  load_from_yaml-Configured s root c =
      let all_nodes = list_all_member [] root (record { output = []; notices = [] }) in
      load_all-Configured all_nodes.output _
        (Configured-notices s (s.notices ++ all_nodes.notices) c)
