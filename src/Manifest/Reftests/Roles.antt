-- ===== src/Manifest/Reftests/Roles.antt =====
-- The roles of the nodes in `_compute_reftests` of tools/manifest/manifest.py.
use wmas.Prelude.{
  String, Bool, true, false, List, [], ◌∷◌, ◌≡◌, refl, if◌then◌else◌, arith, mem_text, All, ◌∙◌,
  sym,
}
use wmas.Data.{Error}
use wmas.Exec.{ok}
use wmas.Checked.Outcome.{Outcome, Outcome-map, Outcome-bind, Outcome-if}
use wmas.Manifest.Names.{SourceFile}
use wmas.Manifest.Items.{
  Item, ref_test, ref_test_node, item_type, item_path, source_of, item_id, url_data, joined_url,
  to_ref_test, to_ref_test_node,
}
use wmas.Manifest.Reftests.{
  Hashing, Graph, is_ref_test, is_ref_test_node, note_change, place_reference, place_test,
  place_nodes, empty_graph, compute_reftests,
}
use wmas.Manifest.Reftests.Sets.{
  AllItems, add_at-AllItems, stands, stands-add_at, stands-add_at_old,
}
use wmas.Manifest.Reftests.Referred.{is_referred, Nodes, inbound_lem}

-- An item of a type, to which nodes refer or not.
abbrev pub HasRole :
    (String → String → String) → (String → Bool) → (type : String) → Bool → Item → Type 0
HasRole urljoin referred type b item =
    (item_type item ≡ type) × (referred (item_id urljoin item) ≡ b)

-- A node stands under its path, among the references if a node refers to it and else among the
-- tests.
abbrev pub Kept : (String → String → String) → (String → Bool) → Graph → Item → Type 0
Kept urljoin referred graph item =
    (if referred (item_id urljoin item)
      then stands urljoin (item_id urljoin item) (item_path item) graph.reference_nodes
      else stands urljoin (item_id urljoin item) (item_path item) graph.reftests)
    ≡ true

-- Tests and references stand where they belong.
pub record Placed (urljoin : String → String → String) (referred : String → Bool) (graph : Graph)
    : Type 0 where
  pub tests : AllItems (HasRole urljoin referred "reftest" false) graph.reftests
  pub references : AllItems (HasRole urljoin referred "reftest_node" true) graph.reference_nodes

-- The graph is made of the nodes: the tests and the references stand where they belong, and no
-- node is lost.
pub record IsGraphOf (hashing : Hashing) (nodes : List Item) (graph : Graph) : Type 0 where
  pub placed : Placed hashing.urljoin (is_referred nodes) graph
  pub kept : All (Kept hashing.urljoin (is_referred nodes) graph) nodes

-- What stands in a graph also stands in the other one.
record Extends (urljoin : String → String → String) (old new : Graph) : Type 0 where
  tests :
      (url path : String)
      → stands urljoin url path old.reftests ≡ true
      → stands urljoin url path new.reftests ≡ true
  references :
      (url path : String)
      → stands urljoin url path old.reference_nodes ≡ true
      → stands urljoin url path new.reference_nodes ≡ true

abbrev as_reference : Item → Item
as_reference item = if is_ref_test item then to_ref_test_node item else item

abbrev as_test : Item → Item
as_test item = if is_ref_test_node item then to_ref_test item else item

module _ (urljoin : String → String → String) (referred : String → Bool) where
  as_reference-same :
      (item : Item)
      → is_ref_test_node item ≡ true
      → (item_type (as_reference item) ≡ "reftest_node")
        × (item_id urljoin (as_reference item) ≡ item_id urljoin item)
        × (item_path (as_reference item) ≡ item_path item)
  unfolding to_ref_test_node item_type item_id url_data joined_url item_path source_of
  as_reference-same (ref_test u r) node = (refl, refl, refl)
  as_reference-same (ref_test_node u r) node = (refl, refl, refl)
  as_reference-same _ node = ground arith

  as_test-same :
      (item : Item)
      → is_ref_test_node item ≡ true
      → (item_type (as_test item) ≡ "reftest")
        × (item_id urljoin (as_test item) ≡ item_id urljoin item)
        × (item_path (as_test item) ≡ item_path item)
  unfolding to_ref_test item_type item_id url_data joined_url item_path source_of
  as_test-same (ref_test u r) node = (refl, refl, refl)
  as_test-same (ref_test_node u r) node = (refl, refl, refl)
  as_test-same _ node = ground arith

  Kept-Extends :
      (old new : Graph) (item : Item)
      → Extends urljoin old new
      → Kept urljoin referred old item
      → Kept urljoin referred new item
  Kept-Extends old new item e h = ground (
    arith,
    h,
    e.tests (item_id urljoin item) (item_path item),
    e.references (item_id urljoin item) (item_path item),
  )

-- The errors are those of the hashing.
module _ (q : Error → Bool) (hashing : Hashing)
    (hashed : (file : SourceFile) → Outcome q (λ h. Unit) (hashing.hash_of file))
    (referred : String → Bool) where
  -- What a step leaves of a graph: its items stay, and all of them are where they belong.
  abbrev Step : Graph → Graph → Type 0
  Step old new = Placed hashing.urljoin referred new × Extends hashing.urljoin old new

  note_change-Step :
      (b : Bool) (item : Item) (graph : Graph)
      → Placed hashing.urljoin referred graph
      → Outcome q (Step graph) (if b then note_change hashing item graph else ok graph)
  note_change-Step false item graph old =
      (old, record { tests = λ u p h. h; references = λ u p h. h })
  note_change-Step true item graph old =
      Outcome-bind q (λ h. Unit) (Step graph) (hashing.hash_of (source_of item)) _
        (hashed (source_of item))
        (λ hash u. (
          record { tests = old.tests; references = old.references },
          record { tests = λ u' p h. h; references = λ u' p h. h },
        ))

  abbrev StepOf : Graph → Item → Graph → Type 0
  StepOf old item new = Step old new × Kept hashing.urljoin referred new item

  place_reference-StepOf :
      (item : Item) (graph : Graph)
      → is_ref_test_node item ≡ true
      → referred (item_id hashing.urljoin item) ≡ true
      → Placed hashing.urljoin referred graph
      → Outcome q (StepOf graph item) (place_reference hashing item graph)
  unfolding place_reference
  place_reference-StepOf item graph node is_referred_to old =
      let same = as_reference-same hashing.urljoin referred item node in
      Outcome-bind q (Step graph) (StepOf graph item) _ _
        (note_change-Step (is_ref_test item) (as_reference item) graph old)
        (λ noted p. (
          (
            record {
              tests = p.0.tests;
              references =
                  add_at-AllItems (HasRole hashing.urljoin referred "reftest_node" true)
                    hashing.urljoin (item_path (as_reference item)) (as_reference item)
                    noted.reference_nodes (same.0, rw same.1 is_referred_to) p.0.references;
            },
            record {
              tests = λ url path h. p.1.tests url path h;
              references = λ url path h.
                  stands-add_at_old hashing.urljoin url path (item_path (as_reference item))
                    (as_reference item) noted.reference_nodes (p.1.references url path h);
            },
          ),
          rw (is_referred_to, sym same.1, sym same.2)
              (stands-add_at hashing.urljoin (item_path (as_reference item)) (as_reference item)
                noted.reference_nodes),
        ))

  place_test-StepOf :
      (item : Item) (graph : Graph)
      → is_ref_test_node item ≡ true
      → referred (item_id hashing.urljoin item) ≡ false
      → Placed hashing.urljoin referred graph
      → Outcome q (StepOf graph item) (place_test hashing item graph)
  unfolding place_test
  place_test-StepOf item graph node free old =
      let same = as_test-same hashing.urljoin referred item node in
      Outcome-bind q (Step graph) (StepOf graph item) _ _
        (note_change-Step (is_ref_test_node item) (as_test item) graph old)
        (λ noted p. (
          (
            record {
              tests =
                  add_at-AllItems (HasRole hashing.urljoin referred "reftest" false) hashing.urljoin
                    (item_path (as_test item)) (as_test item) noted.reftests
                    (same.0, rw same.1 free) p.0.tests;
              references = p.0.references;
            },
            record {
              tests = λ url path h.
                  stands-add_at_old hashing.urljoin url path (item_path (as_test item))
                    (as_test item) noted.reftests (p.1.tests url path h);
              references = λ url path h. p.1.references url path h;
            },
          ),
          rw (free, sym same.1, sym same.2)
              (stands-add_at hashing.urljoin (item_path (as_test item)) (as_test item)
                noted.reftests),
        ))

  abbrev StepsOf : Graph → List Item → Graph → Type 0
  StepsOf old items new = Step old new × All (Kept hashing.urljoin referred new) items

  place_nodes-StepsOf :
      (urls : List String) (items : List Item) (graph : Graph)
      → ((url : String) → mem_text url urls ≡ referred url)
      → Nodes items
      → Placed hashing.urljoin referred graph
      → Outcome q (StepsOf graph items) (place_nodes hashing urls items graph)
  unfolding place_nodes
  place_nodes-StepsOf urls [] graph agree nodes old =
      ((old, record { tests = λ u p h. h; references = λ u p h. h }), tt)
  place_nodes-StepsOf urls (item ∷ items) graph agree nodes old =
      let url = item_id hashing.urljoin item in
      Outcome-bind q (StepOf graph item) (StepsOf graph (item ∷ items)) _ _
        (Outcome-if q (StepOf graph item) (mem_text url urls) _ _
          (λ e. place_reference-StepOf item graph nodes.0 (sym (agree url) ∙ e) old)
          (λ e. place_test-StepOf item graph nodes.0 (sym (agree url) ∙ e) old))
        (λ placed p.
          Outcome-map q (StepsOf placed items) (StepsOf graph (item ∷ items)) _
            (place_nodes-StepsOf urls items placed agree nodes.1 p.0.0)
            (λ new rest. (
              (
                rest.0.0,
                record {
                  tests = λ u path h. rest.0.1.tests u path (p.0.1.tests u path h);
                  references = λ u path h. rest.0.1.references u path (p.0.1.references u path h);
                },
              ),
              (Kept-Extends hashing.urljoin referred placed new item rest.0.1 p.1, rest.1),
            )))

-- For nodes that are reftests or references: if the hashing of files raises only errors of a kind,
-- so does _compute_reftests; and what it returns are tests, which are items of the type reftest to
-- whose URL no node has a reference, and references, which are items of the type reftest_node to
-- whose URL a node has one, whatever the relation of the reference; and for each node an item of
-- its URL stands there under its path. So where files can be hashed, it returns.
pub compute_reftests-IsGraphOf :
    (q : Error → Bool) (hashing : Hashing) (nodes : List Item)
    → ((file : SourceFile) → Outcome q (λ h. Unit) (hashing.hash_of file))
    → Nodes nodes
    → Outcome q (IsGraphOf hashing nodes) (compute_reftests hashing nodes)
unfolding compute_reftests
compute_reftests-IsGraphOf q hashing nodes hashed all =
    let (urls, collected, agree) = inbound_lem nodes all in
    rw (collected, compute_reftests)
      (Outcome-map q (StepsOf q hashing hashed (is_referred nodes) empty_graph nodes)
        (IsGraphOf hashing nodes) (place_nodes hashing urls nodes empty_graph)
        (place_nodes-StepsOf q hashing hashed (is_referred nodes) urls nodes empty_graph agree all
          (record { tests = tt; references = tt }))
        (λ graph done. record { placed = done.0.0; kept = done.1 }))
