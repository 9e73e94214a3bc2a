-- ===== src/Config/Members.antt =====
-- sylar/config.cc: `ListAllMember`. A YAML node is what the code asks of it: a scalar with its text, a
-- map with its members in order, or something else with the text that `<<` writes.
use sylar_server_study.Base.{
  false, not, Text, is_empty, if◌then◌else◌, List, [], ◌∷◌, ◌++◌, append-nil, append_assoc, ◌≡◌,
  refl, sym, ap, ◌∙◌, arith, Bool-cases, inl, inr,
}
use sylar_server_study.Config.Registry.{Notice, name_invalid, is_valid_name}

mutual
  pub data Node : Type 0 where
    scalar : Text → Node
    mapping : Members → Node
    other : Text → Node

  pub data Members : Type 0 where
    none_left : Members
    member : Text → Node → Members → Members

-- `output`, and the lines that are logged.
pub record Listing : Type 0 where
  pub output : List (Text × Node)
  pub notices : List Notice

-- `prefix.empty() ? it->first.Scalar() : prefix + "." + it->first.Scalar()`
abbrev pub member_name : Text → Text → Text
member_name prefix key = if is_empty prefix then key else prefix ++ b'.' ∷ key

-- The check of the name, and the entry for the node itself.
abbrev pub visit : Text → Node → Listing → Listing
visit prefix node out =
    if not (is_valid_name prefix)
    then record out { notices = out.notices ++ name_invalid prefix ∷ [] }
    else record out { output = out.output ++ (prefix, node) ∷ [] }

unfoldable mutual
  pub list_all_member : Text → Node → Listing → Listing
  list_all_member prefix (scalar t) out = visit prefix (scalar t) out
  list_all_member prefix (mapping ms) out =
      let below = list_members prefix ms (visit prefix (mapping ms) out) in
      if not (is_valid_name prefix) then visit prefix (mapping ms) out else below
  list_all_member prefix (other t) out = visit prefix (other t) out

  -- The loop over the members of a map.
  pub list_members : Text → Members → Listing → Listing
  list_members prefix none_left out = out
  list_members prefix (member key node ms) out =
      list_members prefix ms (list_all_member (member_name prefix key) node out)

-- Every node of the tree with its dotted name, whatever the name.
unfoldable mutual
  pub nodes : Text → Node → List (Text × Node)
  nodes prefix (scalar t) = (prefix, scalar t) ∷ []
  nodes prefix (mapping ms) = (prefix, mapping ms) ∷ nodes_below prefix ms
  nodes prefix (other t) = (prefix, other t) ∷ []

  pub nodes_below : Text → Members → List (Text × Node)
  nodes_below prefix none_left = []
  nodes_below prefix (member key node ms) =
      nodes (member_name prefix key) node ++ nodes_below prefix ms

abbrev pub valid_only : List (Text × Node) → List (Text × Node)
valid_only [] = []
valid_only ((k, n) ∷ ns) = if is_valid_name k then (k, n) ∷ valid_only ns else valid_only ns

valid_only-append :
    (xs ys : List (Text × Node)) → valid_only (xs ++ ys) ≡ valid_only xs ++ valid_only ys
valid_only-append [] ys = refl
valid_only-append ((k, n) ∷ xs) ys = ground (arith, valid_only-append xs ys)

invalid-append : (s t : Text) → is_valid_name s ≡ false → is_valid_name (s ++ t) ≡ false
invalid-append [] t h = absurd (cc)
invalid-append (c ∷ s) t h = ground (arith, invalid-append s t)

invalid_member :
    (prefix key : Text)
    → is_valid_name prefix ≡ false
    → is_valid_name (member_name prefix key) ≡ false
invalid_member [] key h = absurd (cc)
invalid_member (c ∷ prefix) key h = invalid-append (c ∷ prefix) (b'.' ∷ key) h

-- Below an invalid name every name is invalid.
mutual
  unfolding nodes nodes_below

  valid_only-nodes :
      (prefix : Text) (node : Node)
      → is_valid_name prefix ≡ false
      → valid_only (nodes prefix node) ≡ []
  valid_only-nodes prefix (scalar t) h = rw h
  valid_only-nodes prefix (mapping ms) h = rw h (valid_only-nodes_below prefix ms h)
  valid_only-nodes prefix (other t) h = rw h

  valid_only-nodes_below :
      (prefix : Text) (ms : Members)
      → is_valid_name prefix ≡ false
      → valid_only (nodes_below prefix ms) ≡ []
  valid_only-nodes_below prefix none_left h = refl
  valid_only-nodes_below prefix (member key node ms) h = rw (
    valid_only-append (nodes (member_name prefix key) node) (nodes_below prefix ms),
    valid_only-nodes (member_name prefix key) node (invalid_member prefix key h),
    valid_only-nodes_below prefix ms h,
  )

-- What has been put out, and what is still to come.
mutual
  unfolding list_all_member list_members nodes nodes_below

  output-member :
      (prefix : Text) (node : Node) (out : Listing)
      → (list_all_member prefix node out).output ≡ out.output ++ valid_only (nodes prefix node)
  output-member prefix (scalar t) out = ground (arith, append-nil out.output)
  output-member prefix (mapping ms) out = elim (Bool-cases (is_valid_name prefix)) [
    | inl good ↦ simp good (
        output-members prefix ms (record out { output = out.output ++ (prefix, mapping ms) ∷ [] })
        ∙ append_assoc out.output ((prefix, mapping ms) ∷ []) (valid_only (nodes_below prefix ms)))
    | inr bad ↦ simp bad (rw (valid_only-nodes_below prefix ms bad) (sym (append-nil out.output)))
  ]
  output-member prefix (other t) out = ground (arith, append-nil out.output)

  output-members :
      (prefix : Text) (ms : Members) (out : Listing)
      → (list_members prefix ms out).output ≡ out.output ++ valid_only (nodes_below prefix ms)
  output-members prefix none_left out = sym (append-nil out.output)
  output-members prefix (member key node ms) out =
      output-members prefix ms (list_all_member (member_name prefix key) node out)
      ∙ (ap (λ z. z ++ valid_only (nodes_below prefix ms))
            (output-member (member_name prefix key) node out)
          ∙ (append_assoc out.output _ _
              ∙ ap (λ z. out.output ++ z)
                  (sym (
                    valid_only-append (nodes (member_name prefix key) node)
                      (nodes_below prefix ms)))))

-- `ListAllMember` puts out, in order, exactly the nodes of the tree below the prefix whose dotted name
-- is valid: to leave out what is below an invalid name loses nothing.
pub output-list_all_member :
    (prefix : Text) (node : Node)
    → (list_all_member prefix node (record { output = []; notices = [] })).output
      ≡ valid_only (nodes prefix node)
output-list_all_member prefix node =
    output-member prefix node (record { output = []; notices = [] })
