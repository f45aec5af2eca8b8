-- ===== src/Manifest/Reftests.antt =====
-- Which nodes of the graph of reftests are tests: `Manifest._compute_reftests` of
-- tools/manifest/manifest.py.
pub mod Sets
pub mod Referred
pub mod Roles
use wmas.Prelude.{
  ℕ, String, Bool, true, false, not, ◌&&◌, ◌||◌, Option, none, some, List, [], ◌∷◌, ◌++◌, map, ◌==◌,
  if◌then◌else◌, mem_text, add_text, or_else,
}
use wmas.Prelude.Dict.{Dict, get, put}
use wmas.Data.{Error, attribute_error}
use wmas.Exec.{Result, ok, raised}
use wmas.Checked.{◌>>=◌, ◌>>◌, or_raised}
use wmas.Manifest.Names.{SourceFile}
use wmas.Manifest.Items.{
  Item, References, ref_test, ref_test_node, item_type, item_path, source_of, item_id, to_ref_test,
  to_ref_test_node,
}
use wmas.Manifest.TypeData.{add_item}

-- What the computation uses of other programs: `urljoin`, and the hash of a file's content.
pub record Hashing : Type 0 where
  pub urljoin : String → String → String
  pub hash_of : SourceFile → Result String

-- `item.references`, which only reftests have
unfoldable pub references_of : Item → Option References
references_of (ref_test_node u r) = some r.references
references_of (ref_test u r) = some r.references
references_of _ = none

abbrev pub add_targets : List String → References → List String
add_targets urls [] = urls
add_targets urls ((url, type) ∷ refs) = add_targets (add_text url urls) refs

-- `has_inbound`
unfoldable pub inbound : List String → List Item → Result (List String)
unfolding references_of
inbound urls [] = ok urls
inbound urls (item ∷ items) = do
  refs ← or_raised attribute_error (references_of item)
  inbound (add_targets urls refs) items

-- The dictionaries that the loop fills.
pub record Graph : Type 0 where
  pub reftests : Dict (List Item)
  pub reference_nodes : Dict (List Item)
  pub changed_hashes : Dict (String × String)
  pub by_url : Dict Item

-- `d[path].add(item)` for a `defaultdict(set)`
unfoldable pub add_at :
    (String → String → String) → String → Item → Dict (List Item) → Dict (List Item)
unfolding add_item
add_at urljoin path item d = put path (add_item urljoin (or_else (get path d) []) item) d

-- `isinstance(item, RefTest)` and `isinstance(item, RefTestNode)`; the first is a subclass.
abbrev pub is_ref_test : Item → Bool
is_ref_test (ref_test u r) = true
is_ref_test _ = false

abbrev pub is_ref_test_node : Item → Bool
is_ref_test_node (ref_test u r) = true
is_ref_test_node (ref_test_node u r) = true
is_ref_test_node _ = false

-- `changed_hashes[path] = (hash, type)`
abbrev pub note_change : Hashing → Item → Graph → Result Graph
note_change hashing item graph = do
  hash ← hashing.hash_of (source_of item)
  ok (record graph {
    changed_hashes = put (item_path item) (hash, item_type item) graph.changed_hashes;
  })

-- A node that is a reference.
unfoldable pub place_reference : Hashing → Item → Graph → Result Graph
unfolding add_at to_ref_test_node item_type item_path source_of item_id
place_reference hashing item graph =
    let node = if is_ref_test item then to_ref_test_node item else item in
    (do
      noted ← if is_ref_test item then note_change hashing node graph else ok graph
      ok (record noted {
        reference_nodes = add_at hashing.urljoin (item_path node) node noted.reference_nodes;
        by_url = put (item_id hashing.urljoin node) node noted.by_url;
      }))

-- A node that no other node refers to.
unfoldable pub place_test : Hashing → Item → Graph → Result Graph
unfolding add_at to_ref_test item_type item_path source_of item_id
place_test hashing item graph =
    let node = if is_ref_test_node item then to_ref_test item else item in
    (do
      noted ← if is_ref_test_node item then note_change hashing node graph else ok graph
      ok (record noted {
        reftests = add_at hashing.urljoin (item_path node) node noted.reftests;
        by_url = put (item_id hashing.urljoin node) node noted.by_url;
      }))

-- The second loop of `_compute_reftests`.
unfoldable pub place_nodes : Hashing → List String → List Item → Graph → Result Graph
unfolding place_reference place_test
place_nodes hashing has_inbound [] graph = ok graph
place_nodes hashing has_inbound (item ∷ items) graph = do
  placed ←
      if mem_text (item_id hashing.urljoin item) has_inbound
      then place_reference hashing item graph
      else place_test hashing item graph
  place_nodes hashing has_inbound items placed

abbrev pub empty_graph : Graph
empty_graph = record { reftests = []; reference_nodes = []; changed_hashes = []; by_url = [] }

-- `_compute_reftests`
unfoldable pub compute_reftests : Hashing → List Item → Result Graph
unfolding inbound place_nodes
compute_reftests hashing reftest_nodes = do
  has_inbound ← inbound [] reftest_nodes
  place_nodes hashing has_inbound reftest_nodes empty_graph
