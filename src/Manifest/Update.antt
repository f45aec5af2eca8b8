-- ===== src/Manifest/Update.antt =====
-- The manifest of all files and its update: `Manifest` of tools/manifest/manifest.py.
pub mod Stale
use wmas.Prelude.{
  ℕ, String, Bool, true, false, not, ◌&&◌, ◌||◌, Option, none, some, List, [], ◌∷◌, ◌++◌, map, ◌==◌,
  if◌then◌else◌, mem_text, add_text, union_texts, minus_texts, or_else, is_some,
}
use wmas.Prelude.Dict.{Dict, get, has, put, del, keys}
use wmas.Data.{Error, key_error}
use wmas.Exec.{
  Result, ok, raised, Exec, pure, raise, gets, lift, modify, for_each, ◌>>=◌, ◌>>◌, value, after,
}
use wmas.Manifest.Names.{SourceFile}
use wmas.Manifest.Content.{Environment}
use wmas.Manifest.Items.{Item}
use wmas.Manifest.Classify.{Items, Source, manifest_items}
use wmas.Manifest.TypeData.{
  Setting, TypeData, Table, add_item, get_item, set_item, delete_item, contains, paths,
}
use wmas.Manifest.Reftests.{Hashing, Graph, compute_reftests}

-- `Manifest`, with `_data` as `tables` by their types, and the cache of files of all items.
pub record Manifest : Type 0 where
  pub path_hash : Dict (String × String)
  pub tables : Dict TypeData
  pub nodes_by_url : Option (Dict Item)
  pub files : Dict SourceFile

-- What the update uses besides.
pub record World : Type 0 where
  pub setting : Setting
  pub env : Environment
  pub hashing : Hashing

-- An element of `tree`: a file that is to be updated, or the path of one that is not.
pub data Visit : Type 0 where
  updated : Source → Visit
  unchanged : String → Visit

-- The variables of `update`.
pub record Progress : Type 0 where
  pub manifest : Manifest
  pub reftest_nodes : List Item
  pub seen_files : List String
  pub changed : Bool
  pub reftest_changes : Bool

-- `new_type in ("reftest", "reftest_node")`
abbrev pub is_reftest_type : String → Bool
is_reftest_type type = type == "reftest" || type == "reftest_node"

-- `set(items)`
abbrev pub set_of : (String → String → String) → List Item → List Item → List Item
set_of urljoin found [] = found
set_of urljoin found (item ∷ items) = set_of urljoin (add_item urljoin found item) items

-- `self._data[type][path]`
unfoldable pub table_item : Setting → String → String → Exec Progress (List Item)
unfolding get_item
table_item setting type path p = elim (get type p.manifest.tables) [
  | none ↦ (raised key_error, p)
  | some table ↦
      let (r, t) = get_item setting path (record { table = table; files = p.manifest.files }) in
      (
        r,
        record p {
          manifest = record (p.manifest) {
            tables = put type t.table p.manifest.tables;
            files = t.files;
          };
        },
      )
]

-- `self._data[type][path] = set(items)`
unfoldable pub set_table_item : World → String → String → List Item → Exec Progress (Unit {0})
unfolding set_item add_item
set_table_item world type path items p = elim (get type p.manifest.tables) [
  | none ↦ (raised key_error, p)
  | some table ↦
      let made = set_of world.hashing.urljoin [] items in
      (
        ok tt,
        record p {
          manifest = record (p.manifest) {
            tables = put type (set_item path made table) p.manifest.tables;
          };
        },
      )
]

-- The type and the items of a file that was recorded, whether its hash changed, and whether this
-- concerns the reftests.
unfoldable pub recorded_items :
    World → Source → String → (String × String) → Exec Progress (Items × Bool)
unfolding manifest_items table_item
recorded_items world source file_hash (old_hash, old_type) =
    let path = source.file.rel_path in
    let note = λ (type : String). modify (λ (p : Progress).
      if is_reftest_type old_type && not (type == old_type)
      then record p { reftest_changes = true }
      else p) in
    if old_hash == file_hash
    then (do
      items ← table_item world.setting old_type path
      note old_type
      pure ((old_type, items), false))
    else (do found ← lift (manifest_items world.env source).0; note (found.0); pure (found, true))

-- What `update` does with the items of a file.
unfoldable pub store_items : World → String → String → Items → Bool → Exec Progress (Unit {0})
unfolding set_table_item
store_items world path file_hash (new_type, items) fresh = do
  if is_reftest_type new_type
      then modify (λ p. record p {
        reftest_nodes = p.reftest_nodes ++ items;
        reftest_changes = p.reftest_changes || fresh;
      })
      else if not (new_type == "")
      then set_table_item world new_type path items
      else pure tt
  modify (λ p. record p {
    manifest = record (p.manifest) {
      path_hash = put path (file_hash, new_type) p.manifest.path_hash;
    };
    changed = p.changed || fresh;
  })

-- The branch of the loop for a file that is to be updated.
unfoldable pub update_file : World → Source → Exec Progress (Unit {0})
unfolding recorded_items store_items manifest_items
update_file world source = do
  modify (λ (p : Progress). record p { seen_files = add_text source.file.rel_path p.seen_files })
  file_hash ← lift (world.hashing.hash_of source.file)
  recorded ← gets (λ p. get source.file.rel_path p.manifest.path_hash)
  elim recorded [
    | none ↦ (do
      found ← lift (manifest_items world.env source).0
      store_items world source.file.rel_path file_hash found true)
    | some old ↦ (do
      found ← recorded_items world source file_hash old
      store_items world source.file.rel_path file_hash (found.0) (found.1))
  ]

-- The body of the loop over `tree`.
unfoldable pub visit : World → Visit → Exec Progress (Unit {0})
unfolding update_file
visit world (unchanged path) = modify (λ p. record p { seen_files = add_text path p.seen_files })
visit world (updated source) = update_file world source

-- `try: del self._data[old_type][rel_path]`; a KeyError is caught.
unfoldable pub delete_in : String → String → Dict TypeData → Dict TypeData
unfolding delete_item
delete_in type path tables = elim (get type tables) [
  | none ↦ tables
  | some table ↦ elim (delete_item path table) [
    | raised e ↦ tables
    | ok rest ↦ put type rest tables
  ]
]

-- `if rel_path in test_data: del test_data[rel_path]`, for each table; `in` loads the whole table.
unfoldable pub delete_everywhere : Setting → String → List String → Exec Progress (Unit {0})
unfolding contains delete_item
delete_everywhere setting path [] p = (ok tt, p)
delete_everywhere setting path (type ∷ types) p = elim (get type p.manifest.tables) [
  | none ↦ delete_everywhere setting path types p
  | some table ↦
      let (r, t) = contains setting path (record { table = table; files = p.manifest.files }) in
      let kept = λ (rest : TypeData). record p {
        manifest = record (p.manifest) {
          tables = put type rest p.manifest.tables;
          files = t.files;
        };
      } in
      elim r [
        | raised e ↦ (raised e, kept t.table)
        | ok false ↦ delete_everywhere setting path types (kept t.table)
        | ok true ↦ elim (delete_item path t.table) [
          | raised e ↦ (raised e, kept t.table)
          | ok rest ↦ delete_everywhere setting path types (kept rest)
        ]
      ]
]

-- The body of the loop over `deleted`.
unfoldable pub delete_path : Setting → String → Exec Progress (Unit {0})
unfolding delete_in delete_everywhere
delete_path setting path p = elim (get path p.manifest.path_hash) [
  | some (hash, old_type) ↦ (
    ok tt,
    record p {
      manifest = record (p.manifest) {
        path_hash = del path p.manifest.path_hash;
        tables = delete_in old_type path p.manifest.tables;
      };
      reftest_changes = p.reftest_changes || is_reftest_type old_type;
    },
  )
  | none ↦ delete_everywhere setting path (keys p.manifest.tables) p
]

-- `ManifestData.paths`
unfoldable pub all_paths : Dict TypeData → Result (List String)
unfolding paths
all_paths [] = ok []
all_paths ((type, table) ∷ tables) = elim (all_paths tables) [
  | raised e ↦ raised e
  | ok rest ↦ elim (paths table) [ raised e ↦ raised e | ok own ↦ ok (union_texts own rest) ]
]

abbrev put_all : Dict (String × String) → Dict (String × String) → Dict (String × String)
put_all [] d = d
put_all ((k, v) ∷ changes) d = put_all changes (put k v d)

-- `self._data[type].data = items`
abbrev set_data : String → Dict (List Item) → Dict TypeData → Dict TypeData
set_data type items tables = elim (get type tables) [
  | none ↦ tables
  | some table ↦ put type (record table { item_data = items }) tables
]

-- `if reftest_changes: ...`
unfoldable pub refresh_reftests : Hashing → Exec Progress (Unit {0})
unfolding compute_reftests
refresh_reftests hashing p =
    if p.reftest_changes
    then elim (compute_reftests hashing p.reftest_nodes) [
      | raised e ↦ (raised e, p)
      | ok graph ↦ (
        ok tt,
        record p {
          manifest = record (p.manifest) {
            tables =
                set_data "reftest_node" graph.reference_nodes
                  (set_data "reftest" graph.reftests p.manifest.tables);
            path_hash = put_all graph.changed_hashes p.manifest.path_hash;
            nodes_by_url = some graph.by_url;
          };
        },
      )
    ]
    else (ok tt, p)

abbrev some_path : List String → Bool
some_path [] = false
some_path (p ∷ ps) = true

abbrev begin : Manifest → Progress
begin manifest = record {
  manifest = manifest;
  reftest_nodes = [];
  seen_files = [];
  changed = false;
  reftest_changes = false;
}

-- `update` behind the list of the former paths.
unfoldable pub update_tree : World → List Visit → List String → Exec Progress Bool
unfolding visit delete_path refresh_reftests for_each minus_texts
update_tree world tree prev_files = do
  for_each (visit world) tree
  seen ← gets (λ p. p.seen_files)
  modify (λ p. record p { changed = p.changed || some_path (minus_texts prev_files seen) })
  for_each (delete_path world.setting) (minus_texts prev_files seen)
  refresh_reftests world.hashing
  gets (λ p. p.changed)

-- `update`
unfoldable pub update : World → List Visit → Exec Manifest Bool
unfolding all_paths update_tree
update world tree manifest = elim (all_paths manifest.tables) [
  | raised e ↦ (raised e, manifest)
  | ok prev_files ↦
      let (r, p) = update_tree world tree prev_files (begin manifest) in (r, p.manifest)
]
