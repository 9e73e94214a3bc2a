-- ===== src/Config/Values.antt =====
-- The values that `LoadFromYaml` leaves.
use sylar_server_study.Base.{
  ℕ, eq_of_some, true, false, Text, text_eq, text_eq_iff, find, if◌then◌else◌, List, [], ◌∷◌, ◌++◌,
  some, get_elem?, modify, get_elem?-modify_self, get_elem?-modify_ne, ◌≡◌, ◌≢◌, refl, sym, ap, ◌∙◌,
  arith, Option-cases, Bool-cases, inl, inr,
}
use sylar_server_study.Config.{Cast, from_string}
use sylar_server_study.Config.Registry.{not_cast, is_valid_name, AnyVar, Configs, from_string_at}
use sylar_server_study.Config.Members.{
  Node, Members, list_all_member, nodes, valid_only, output-list_all_member,
}
use sylar_server_study.Config.Load.{
  text_of, next_value, configured, load_node, load_all, load_from_yaml,
}
use sylar_server_study.Config.Filed.{
  IsLawful, is_filed, IsFiled, with_value, filed_injective, to_lower-valid, value-from_string,
  is_filed-modify, noted, unnamed, unfiled, other_name, filed_var,
}

-- What one entry does to the variable of a name.
abbrev entry_value : {T : Type 0} → (Members → Text) → Cast T → T → Text → Text → Node → T
entry_value emit c x name k node = if text_eq k name then next_value c x (text_of emit node) else x

module _ {El : ℕ → Type 0} {W : Type 0} (casts : (t : ℕ) → Cast (El t)) (emit : Members → Text)
    (lawful : IsLawful casts) where
  -- The name leads to the variable.
  record Leads (s : Configs El W) (name : Text) (p : ℕ) (v : AnyVar El W) : Type 0 where
    filed : IsFiled s
    found : find name s.datas ≡ some p
    there : get_elem? s.vars p ≡ some v

  from_string_at_here :
      (s : Configs El W) (p : ℕ) (v : AnyVar El W) (val : Text)
      → get_elem? s.vars p ≡ some v
      → (from_string_at casts s p val).vars
        ≡ modify s.vars p (λ u. with_value v (next_value (casts v.tag) v.var.value val))
  unfolding from_string_at
  from_string_at_here s p v val q =
      rw (q, from_string_at)
        ((noted (from_string (casts v.tag) v.var val s.world).2 _ (not_cast val)).0
          ∙ rw (value-from_string (casts v.tag) v.var val s.world (lawful v.tag)))

  from_string_at_datas :
      (s : Configs El W) (p : ℕ) (val : Text) → (from_string_at casts s p val).datas ≡ s.datas
  unfolding from_string_at
  from_string_at_datas s p val = elim (Option-cases (get_elem? s.vars p)) [
    | inl q ↦ rw (q, from_string_at) refl
    | inr (v, q) ↦
        rw (q, from_string_at)
          (noted (from_string (casts v.tag) v.var val s.world).2 _ (not_cast val)).1
  ]

  from_string_at-IsFiled :
      (s : Configs El W) (r : ℕ) (u : AnyVar El W) (val : Text)
      → get_elem? s.vars r ≡ some u
      → IsFiled s
      → IsFiled (from_string_at casts s r val)
  from_string_at-IsFiled s r u val q f j i e =
      let e' : find j s.datas ≡ some i =
        ap (λ d. find j d) (sym (from_string_at_datas s r val)) ∙ e in
      ap (λ vs. is_filed vs i j) (from_string_at_here s r u val q)
      ∙ (is_filed-modify s.vars r i u (with_value u (next_value (casts u.tag) u.var.value val)) j q
            refl
          ∙ f j i e')

  from_string_at-Leads :
      (s : Configs El W) (name k : Text) (node : Node) (p r : ℕ) (v u : AnyVar El W)
      → find k s.datas ≡ some r
      → get_elem? s.vars r ≡ some u
      → Leads s name p v
      → Leads
          (from_string_at casts s r (text_of emit node))
          name
          p
          (with_value v (entry_value emit (casts v.tag) v.var.value name k node))
  from_string_at-Leads s name k node p r v u a b h =
      let val = text_of emit node in
      record {
        filed = from_string_at-IsFiled s r u val b h.filed;
        found = ap (λ d. find name d) (from_string_at_datas s r val) ∙ h.found;
        there = elim (Bool-cases (text_eq k name)) [
          | inl same ↦
              let k=name : k ≡ name = ground (arith, same, text_eq_iff k name) in
              let p=r : p ≡ r =
                eq_of_some (sym h.found ∙ (ap (λ j. find j s.datas) (sym k=name) ∙ a)) in
              let there' : get_elem? s.vars r ≡ some v =
                ap (λ i. get_elem? s.vars i) (sym p=r) ∙ h.there in
              ap (λ vs. get_elem? vs p) (from_string_at_here s r v val there')
              ∙ (ap
                    (λ i.
                      get_elem?
                        (modify s.vars r
                          (λ x. with_value v (next_value (casts v.tag) v.var.value val)))
                        i)
                    p=r
                  ∙ (get_elem?-modify_self s.vars r _ v there' ∙ rw same refl))
          | inr differs ↦
              ap (λ vs. get_elem? vs p) (from_string_at_here s r u val b)
              ∙ (get_elem?-modify_ne s.vars r p _ (λ e. absurd (
                    ground (
                      arith,
                      differs,
                      text_eq_iff k name,
                      filed_injective s k name p h.filed (rw (sym e) a) h.found,
                    )))
                  ∙ rw differs h.there)
        ];
      }

  -- The variable that an entry's name leads to has its value, and its names are those it had.
  load_node-Leads :
      (s : Configs El W) (name k : Text) (node : Node) (p : ℕ) (v : AnyVar El W)
      → is_valid_name k ≡ true
      → name ≢ []
      → Leads s name p v
      → Leads
          (load_node casts emit s k node)
          name
          p
          (with_value v (entry_value emit (casts v.tag) v.var.value name k node))
  unfolding load_node
  load_node-Leads s name [] node p v good ne h = rw (unnamed name ne) h
  load_node-Leads s name (c ∷ t) node p v good ne h =
      rw (to_lower-valid (c ∷ t) good) (elim (Option-cases (find (c ∷ t) s.datas)) [
        | inl q ↦ rw q (rw (unfiled s name (c ∷ t) p h.found q) h)
        | inr (r, q) ↦
            let (u, b) = filed_var s (c ∷ t) r h.filed q in
            rw q (from_string_at-Leads s name (c ∷ t) node p r v u q b h)
      ])

  load_all-Leads :
      (ns : List (Text × Node)) (s : Configs El W) (name : Text) (p : ℕ) (v : AnyVar El W)
      → is_valid_name name ≡ true
      → name ≢ []
      → Leads s name p v
      → Leads
          (load_all casts emit s (valid_only ns))
          name
          p
          (with_value v (configured emit (casts v.tag) v.var.value name ns))
  unfolding load_all
  load_all-Leads [] s name p v good ne h = h
  load_all-Leads ((k, node) ∷ ns) s name p v good ne h = elim (Bool-cases (is_valid_name k)) [
    | inl valid ↦ simp valid (
        load_all-Leads ns (load_node casts emit s k node) name p
          (with_value v (entry_value emit (casts v.tag) v.var.value name k node)) good ne
          (load_node-Leads s name k node p v valid ne h))
    | inr bad ↦
        let differs : text_eq k name ≡ false = other_name name k good bad in
        simp (bad, differs) (load_all-Leads ns s name p v good ne h)
  ]

  -- Loading a tree gives a variable the last text that is written under its name and can be cast to
  -- its type, and leaves its value if there is none; its name, its type and its listeners stay, and
  -- its name leads to it as before. The name is valid and not empty, the map leads from every name to
  -- a variable of that name, and the types' comparisons hold of equal values only.
  pub load_from_yaml_lem :
      (s : Configs El W) (root : Node) (name : Text) (p : ℕ) (v : AnyVar El W)
      → IsFiled s
      → is_valid_name name ≡ true
      → name ≢ []
      → find name s.datas ≡ some p
      → get_elem? s.vars p ≡ some v
      → (find name (load_from_yaml casts emit s root).datas ≡ some p)
        × (get_elem? (load_from_yaml casts emit s root).vars p
            ≡ some (with_value v (configured emit (casts v.tag) v.var.value name (nodes [] root))))
  unfolding load_from_yaml
  load_from_yaml_lem s root name p v f good ne a b =
      let start = list_all_member [] root (record { output = []; notices = [] }) in
      let s' = record s { notices = s.notices ++ start.notices } in
      let h =
        load_all-Leads (nodes [] root) s' name p v good ne
          (record { filed = f; found = a; there = b }) in
      rw (output-list_all_member [] root) (h.found, h.there)
