-- ===== src/Tests/Checking.antt =====
-- The validators, the stored form of an entity and the diff of two snapshots at small inputs.
use lingshu_round.Prelude.{
  String, ◌≡◌, refl, ◌↔◌, ◌⊎◌, true, some, List, [], ◌∷◌, string_eq, contains, arith,
}
use lingshu_round.Prelude.Dict.{Dict, lookup}
use lingshu_round.Prelude.Value.{Value, text, num, array, nil}
use lingshu_round.Infra.Exec.{ok, err}
use lingshu_round.Ontology.Graph.{Node, incoming}
use lingshu_round.Ontology.Repository.{get_related_nodes}
use lingshu_round.Ontology.Snapshots.FieldDiff.{
  compute_field_diff, added_of, changed_of, lookup-compute_field_diff,
}
use lingshu_round.Ontology.Validators.Contract.{
  check_contract_satisfaction, AllSatisfy, check_contract_satisfaction_iff,
}
use lingshu_round.Ontology.Validators.Cycle.{
  check_interface_cycle, extends_children, cycle_error, Reach,
}
use lingshu_round.Ontology.Validators.Cycle.Decides.{IsUniverse, check_interface_cycle_decides}
use lingshu_round.Ontology.Validators.Cycle.Acyclic.{
  IsAcyclic, with_parents, check_interface_cycle-IsAcyclic,
}
use lingshu_round.Tests.Memory.{Stored, Edge, memory_graph}
use lingshu_round.Tests.Publishing.{published_node}

abbrev interface : String → Node
interface rid = record published_node { label = "InterfaceType"; rid = rid }

abbrev edge : String → String → String → Edge
edge source kind target = record { source = source; kind = kind; target = target }

-- the interface b extends a, and an object implements b
abbrev extended : Stored
extended = record {
  nodes = published_node ∷ interface "a" ∷ interface "b" ∷ [];
  edges = edge "b" "EXTENDS" "a" ∷ edge "ri.obj.1" "IMPLEMENTS" "b" ∷ [];
}

abbrev unrelated : Stored
unrelated = record { nodes = interface "a" ∷ interface "b" ∷ []; edges = [] }

abbrev all_rids : List String
all_rids = "ri.obj.1" ∷ "a" ∷ "b" ∷ []

extended-IsUniverse : IsUniverse memory_graph "t1" extended ("b" ∷ []) all_rids
unfolding extends_children get_related_nodes
extended-IsUniverse = record {
  parents_inside = λ p m. ground arith;
  closed = λ x y m e. ground arith;
}

check_interface_cycle_decides_example :
    ((check_interface_cycle memory_graph 4 "a" ("b" ∷ []) "t1" extended ≡ some (ok tt))
      × ((p : String)
          → contains ("b" ∷ []) p ≡ true
          → ¬ Reach (extends_children memory_graph "t1" extended) p "a"))
    ⊎ ((p : String) × (contains ("b" ∷ []) p ≡ true)
        × Reach (extends_children memory_graph "t1" extended) p "a"
        × (check_interface_cycle memory_graph 4 "a" ("b" ∷ []) "t1" extended
            ≡ some (err (cycle_error "a" p))))
check_interface_cycle_decides_example =
    check_interface_cycle_decides memory_graph "t1" extended all_rids 4 "a" ("b" ∷ [])
      extended-IsUniverse (omega arith)

unrelated-IsUniverse : IsUniverse memory_graph "t1" unrelated ("a" ∷ []) all_rids
unfolding extends_children get_related_nodes
unrelated-IsUniverse = record {
  parents_inside = λ p m. ground arith;
  closed = λ x y m e. ground arith;
}

unrelated-IsAcyclic : IsAcyclic (extends_children memory_graph "t1" unrelated)
unfolding extends_children get_related_nodes
unrelated-IsAcyclic x y e r = cc e

check_interface_cycle-IsAcyclic_example :
    IsAcyclic (with_parents (extends_children memory_graph "t1" unrelated) "b" ("a" ∷ []))
check_interface_cycle-IsAcyclic_example =
    check_interface_cycle-IsAcyclic memory_graph "t1" unrelated all_rids 4 "b" ("a" ∷ [])
      unrelated-IsUniverse (omega arith) unrelated-IsAcyclic
      (unfold check_interface_cycle get_related_nodes string_eq in refl)

check_contract_satisfaction_iff_example :
    (check_contract_satisfaction memory_graph "b" "t1" ("ri.shprop.1" ∷ []) extended ≡ ok [])
    ↔ AllSatisfy memory_graph "t1"
        ("ri.shprop.1" ∷ [])
        (get_related_nodes memory_graph "InterfaceType" "b" "t1" "IMPLEMENTS" incoming extended)
        extended
check_contract_satisfaction_iff_example =
    check_contract_satisfaction_iff memory_graph "b" "t1" ("ri.shprop.1" ∷ []) extended

abbrev old_fields : Dict String Value
old_fields = ("display_name", text "Arm") ∷ ("description", text "left") ∷ []

abbrev new_fields : Dict String Value
new_fields = ("display_name", text "Robot arm") ∷ ("size", num 3) ∷ []

abbrev stored_fields : Dict String Value
stored_fields = ("widget", array nil) ∷ []

lookup-compute_field_diff_example :
    (lookup "size" (compute_field_diff old_fields new_fields).added
      ≡ added_of (lookup "size" old_fields) (lookup "size" new_fields))
    × (lookup "size" (compute_field_diff old_fields new_fields).removed
        ≡ added_of (lookup "size" new_fields) (lookup "size" old_fields))
    × (lookup "size" (compute_field_diff old_fields new_fields).changed
        ≡ changed_of (lookup "size" old_fields) (lookup "size" new_fields))
lookup-compute_field_diff_example = lookup-compute_field_diff "size" old_fields new_fields
