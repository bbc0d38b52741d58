-- ===== src/Ontology/Service/Drafts/Hidden.antt =====
-- Edits are hidden: what the methods for drafts do cannot be seen by a test that looks at no draft
-- and no staged version of the tenant. The published versions, and all that other tenants have,
-- are seen by such tests.
use lingshu_round.Prelude.{
  String, ◌≡◌, refl, ◌∙◌, sym, Bool, true, false, ◌&&◌, ◌||◌, Option, none, some, arith, string_eq,
  option_eq,
}
use lingshu_round.Prelude.Count.{find-holds}
use lingshu_round.Prelude.Dict.{Dict}
use lingshu_round.Prelude.Value.{Value}
use lingshu_round.Infra.Exec.{gets, ◌>>=◌}
use lingshu_round.Ontology.Graph.{Node, IsLawful, is_version_of, is_published}
use lingshu_round.Ontology.Repository.{
  Patch, get_active_node, get_staging_node, or_try, apply_patch, delete_node,
}
use lingshu_round.Ontology.World.{Context, Servers, World, on_graph}
use lingshu_round.Ontology.Keeps.{
  Keeps, keeps_rules, Keeps-bind, Keeps-gets-bind, Keeps-require-bind, Keeps-gets, Keeps-lift,
  Keeps-check_lock, Keeps-create_node, Keeps-update_node, Keeps-delete_node,
}
use lingshu_round.Ontology.Service.Drafts.{
  new_node, draft_clone, update_patch, submit_patch, deletion_marker, create_entity, write_draft,
  update_entity, mark_deleted, delete_staging_unless, delete_entity, submit_to_staging,
  discard_draft, drop_lock,
}

-- the test passes no draft and no staged version of the tenant
abbrev pub IsBlind : String → (Node → Bool) → Type 0
IsBlind tenant p =
    (n : Node) → n.tenant_id ≡ tenant → (n.is_draft || n.is_staging) ≡ true → p n ≡ false

tenant_of_active :
    (V : Servers) (label rid tenant : String) (g : V.graph.State) (n : Node)
    → get_active_node V.graph label rid tenant g ≡ some n
    → n.tenant_id ≡ tenant
unfolding get_active_node
tenant_of_active V label rid tenant g n h = ground (
  arith,
  find-holds (λ m. is_version_of label rid tenant m && is_published m) (V.graph.rows g) n h,
)

tenant_of_staging :
    (V : Servers) (label rid tenant : String) (g : V.graph.State) (n : Node)
    → get_staging_node V.graph label rid tenant g ≡ some n
    → n.tenant_id ≡ tenant
unfolding get_staging_node
tenant_of_staging V label rid tenant g n h =
    ground (
      arith,
      find-holds (λ m. is_version_of label rid tenant m && m.is_staging) (V.graph.rows g) n h,
    )

tenant_of_source :
    (V : Servers) (label rid tenant : String) (g : V.graph.State) (n : Node)
    → or_try
        (get_staging_node V.graph label rid tenant g)
        (get_active_node V.graph label rid tenant g)
      ≡ some n
    → n.tenant_id ≡ tenant
tenant_of_source V label rid tenant g n h =
    ground
      (arith, tenant_of_staging V label rid tenant g n, tenant_of_active V label rid tenant g n)

module _ (V : Servers) (L : IsLawful V.graph) (c : Context) (p : Node → Bool)
    (blind : IsBlind c.tenant_id p) where
  pub create_entity-Keeps :
      (label api_name : String) (props : Dict String Value)
      → Keeps V p (create_entity V c label api_name props)
  unfolding create_entity
  create_entity-Keeps label api_name props =
      let made =
        Keeps-create_node {V = V} L {p = p} (new_node V c label api_name props)
          (blind _ refl refl) in
      Keeps-bind _ _ (search keeps_rules) λ unique.
        Keeps-bind _ _ (search keeps_rules) λ _. Keeps-bind _ _ made λ node. search keeps_rules

  -- a write to a draft that leaves a draft or a staged version
  patch-same :
      (patch : Patch) (label rid : String) (n : Node)
      → is_version_of label rid c.tenant_id n ≡ true
      → n.is_draft ≡ true
      → ((apply_patch patch n).is_draft || (apply_patch patch n).is_staging) ≡ true
      → p (apply_patch patch n) ≡ p n
  unfolding apply_patch
  patch-same patch label rid n version before after =
      let tenant : n.tenant_id ≡ c.tenant_id = ground arith in
      blind (apply_patch patch n) tenant after ∙ sym (blind n tenant (ground arith))

  write_draft-Keeps :
      (label rid : String) (updates : Dict String Value) (draft : Option Node)
      → Keeps V p (write_draft V c label rid updates draft)
  unfolding write_draft
  write_draft-Keeps label rid updates none = Keeps-gets-bind _ _ λ w.
      (Keeps-require-bind _ _ _ λ source found.
          Keeps-create_node {V = V} L {p = p} (draft_clone V c source updates)
            (blind _ (tenant_of_source V label rid c.tenant_id w.graph source found) refl)).at
        w
  write_draft-Keeps label rid updates (some n) =
      let written =
        Keeps-update_node {V = V} L {p = p} label rid c.tenant_id (update_patch V c updates)
          (some true) (some c.user_id)
          λ m version draft.
            patch-same (update_patch V c updates) label rid m version draft
              (unfold apply_patch in ground arith) in
      search (keeps_rules, written)

  pub update_entity-Keeps :
      (label rid : String) (updates : Dict String Value)
      → Keeps V p (update_entity V c label rid updates)
  unfolding update_entity
  update_entity-Keeps label rid updates = search (keeps_rules, write_draft-Keeps)

  delete_draft-Keeps :
      (label rid : String)
      → Keeps V p
          (on_graph V (delete_node V.graph label rid c.tenant_id (some true) none (some c.user_id)))
  delete_draft-Keeps label rid =
      Keeps-delete_node {V = V} L {p = p} label rid c.tenant_id (some true) none (some c.user_id)
        λ n version draft _. blind n (ground arith) (ground arith)

  delete_staged-Keeps :
      (label rid : String)
      → Keeps V p (on_graph V (delete_node V.graph label rid c.tenant_id none (some true) none))
  delete_staged-Keeps label rid =
      Keeps-delete_node {V = V} L {p = p} label rid c.tenant_id none (some true) none
        λ n version _ staged. blind n (ground arith) (ground arith)

  delete_staging_unless-Keeps :
      (label rid : String) (b : Bool) → Keeps V p (delete_staging_unless V c label rid b)
  unfolding delete_staging_unless
  delete_staging_unless-Keeps label rid true = search keeps_rules
  delete_staging_unless-Keeps label rid false = search (keeps_rules, delete_staged-Keeps)

  mark_deleted-Keeps :
      (label rid : String) (w : World V) (active : Option Node)
      → get_active_node V.graph label rid c.tenant_id w.graph ≡ active
      → Keeps V p (mark_deleted V c label rid active)
  unfolding mark_deleted
  mark_deleted-Keeps label rid w none e =
      search (keeps_rules, delete_draft-Keeps, delete_staging_unless-Keeps)
  mark_deleted-Keeps label rid w (some n) e =
      let made =
        Keeps-create_node {V = V} L {p = p} (deletion_marker V c n)
          (blind _ (tenant_of_active V label rid c.tenant_id w.graph n e) refl) in
      search (keeps_rules, made)

  delete_marked-Keeps :
      (label rid : String)
      → Keeps V p (
          gets (λ w. get_active_node V.graph label rid c.tenant_id w.graph)
          >>= mark_deleted V c label rid)
  delete_marked-Keeps label rid =
      Keeps-gets-bind _ _ λ w. (mark_deleted-Keeps label rid w _ refl).at w

  pub delete_entity-Keeps : (label rid : String) → Keeps V p (delete_entity V c label rid)
  unfolding delete_entity
  delete_entity-Keeps label rid = Keeps-bind _ _ (Keeps-gets _) λ dependencies.
      Keeps-bind _ _ (Keeps-lift _)
        λ _. Keeps-bind _ _ (Keeps-check_lock _ _) λ _. delete_marked-Keeps label rid

  pub submit_to_staging-Keeps : (label rid : String) → Keeps V p (submit_to_staging V c label rid)
  unfolding submit_to_staging drop_lock
  submit_to_staging-Keeps label rid =
      let written =
        Keeps-update_node {V = V} L {p = p} label rid c.tenant_id (submit_patch V c) (some true)
          (some c.user_id)
          λ m version draft.
            patch-same (submit_patch V c) label rid m version draft
              (unfold apply_patch in ground arith) in
      Keeps-bind _ _ (search keeps_rules) λ draft.
        Keeps-bind _ _ (search keeps_rules)
          λ _. Keeps-bind _ _ written λ updated. search keeps_rules

  pub discard_draft-Keeps : (label rid : String) → Keeps V p (discard_draft V c label rid)
  unfolding discard_draft drop_lock
  discard_draft-Keeps label rid = search (keeps_rules, delete_draft-Keeps)
