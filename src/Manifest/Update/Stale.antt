-- ===== src/Manifest/Update/Stale.antt =====
-- What an update of tools/manifest/manifest.py leaves behind.
use wmas.Prelude.{
  String, Bool, true, false, not, ◌&&◌, none, some, List, [], ◌==◌, ◌≡◌, refl, if◌then◌else◌, arith,
  ◌∙◌, ap, if-true, if-false, eq_refl, add_text,
}
use wmas.Prelude.Dict.{Dict, get, has, put, del, get-put, get-del}
use wmas.Data.{key_error}
use wmas.Exec.{Result, ok, raised, value, after}
use wmas.Manifest.Items.{Item}
use wmas.Manifest.Classify.{Source, manifest_items}
use wmas.Manifest.TypeData.{Setting, TypeData, delete_item, set_item}
use wmas.Manifest.Update.{
  Manifest, Progress, World, is_reftest_type, delete_in, delete_path, store_items, set_table_item,
  set_of, update_file, recorded_items,
}

delete_in-unloaded :
    (type path : String) (tables : Dict TypeData) (table : TypeData)
    → get type tables ≡ some table
    → get path table.item_data ≡ none
    → delete_in type path tables ≡ tables
unfolding delete_in delete_item has
delete_in-unloaded type path tables table found unloaded =
    let refused : delete_item path table ≡ raised key_error =
      simp (unloaded, delete_item, has) refl in
    rw (found, refused, delete_in) refl

get-del_same : {V : Type 0} (k : String) (d : Dict V) → get k (del k d) ≡ none
get-del_same k d = get-del k k d ∙ if-true (k == k) none (get k d) (eq_refl k)

get-put_same : {V : Type 0} (k : String) (v : V) (d : Dict V) → get k (put k v d) ≡ some v
get-put_same k v d = get-put k k v d ∙ if-true (k == k) (some v) (get k d) (eq_refl k)

-- Let a deleted file be recorded with a type whose table has not loaded it. Then the deletion takes
-- the file out of the recorded hashes and leaves all tables as they are, the JSON of the file
-- included.
pub delete_path-unloaded :
    (setting : Setting) (path type hash : String) (p : Progress) (table : TypeData)
    → get path p.manifest.path_hash ≡ some (hash, type)
    → get type p.manifest.tables ≡ some table
    → get path table.item_data ≡ none
    → (value (delete_path setting path) p ≡ ok tt)
      × (get path ((after (delete_path setting path) p).manifest).path_hash ≡ none)
      × (((after (delete_path setting path) p).manifest).tables ≡ p.manifest.tables)
unfolding delete_path
delete_path-unloaded setting path type hash p table recorded found unloaded =
    let gone = get-del_same path p.manifest.path_hash in
    let kept = delete_in-unloaded type path p.manifest.tables table found unloaded in
    ground (arith, recorded, gone, kept)

store_items-other :
    (world : World) (path hash new_type old_type : String) (items : List Item) (fresh : Bool)
    (p : Progress) (table : TypeData)
    → is_reftest_type new_type ≡ false
    → (new_type == "") ≡ false
    → (new_type == old_type) ≡ false
    → get new_type p.manifest.tables ≡ some table
    → (value (store_items world path hash (new_type, items) fresh) p ≡ ok tt)
      × (get path
            ((after (store_items world path hash (new_type, items) fresh) p).manifest).path_hash
          ≡ some (hash, new_type))
      × (get old_type
            ((after (store_items world path hash (new_type, items) fresh) p).manifest).tables
          ≡ get old_type p.manifest.tables)
unfolding store_items set_table_item set_item
store_items-other world path hash new_type old_type items fresh p table plain named other found =
    let stored = get-put_same path (hash, new_type) p.manifest.path_hash in
    let kept =
      get-put new_type old_type (set_item path (set_of world.hashing.urljoin [] items) table)
        p.manifest.tables
      ∙ if-false (new_type == old_type) _ (get old_type p.manifest.tables) other in
    ground (arith, plain, named, found, stored, kept)

-- The variables when the items are stored.
abbrev noted : Source → String → String → Progress → Progress
noted source old_type new_type p =
    let seen = record p { seen_files = add_text source.file.rel_path p.seen_files } in
    if is_reftest_type old_type && not (new_type == old_type)
    then record seen { reftest_changes = true }
    else seen

noted-manifest :
    (source : Source) (old_type new_type : String) (p : Progress)
    → (noted source old_type new_type p).manifest ≡ p.manifest
noted-manifest source old_type new_type p = ground arith

update_file-store :
    (world : World) (source : Source) (hash old_hash new_type old_type : String) (items : List Item)
    (p : Progress)
    → world.hashing.hash_of source.file ≡ ok hash
    → get source.file.rel_path p.manifest.path_hash ≡ some (old_hash, old_type)
    → (old_hash == hash) ≡ false
    → (manifest_items world.env source).0 ≡ ok (new_type, items)
    → update_file world source p
      ≡ store_items world source.file.rel_path hash
          (new_type, items)
          true
          (noted source old_type new_type p)
unfolding update_file recorded_items
update_file-store world source hash old_hash new_type old_type items p hashed recorded differs
      made =
    rw (hashed, recorded, differs, made, update_file) refl

-- Let a file be recorded with an old type, its hash have changed, and its items now be of another
-- type, which is not a reftest's. Then update_file records the new hash and type, and the table of
-- the old type keeps what it holds of the file.
pub update_file-stale :
    (world : World) (source : Source) (hash old_hash new_type old_type : String) (items : List Item)
    (p : Progress) (table : TypeData)
    → world.hashing.hash_of source.file ≡ ok hash
    → get source.file.rel_path p.manifest.path_hash ≡ some (old_hash, old_type)
    → (old_hash == hash) ≡ false
    → (manifest_items world.env source).0 ≡ ok (new_type, items)
    → is_reftest_type new_type ≡ false
    → (new_type == "") ≡ false
    → (new_type == old_type) ≡ false
    → get new_type p.manifest.tables ≡ some table
    → (value (update_file world source) p ≡ ok tt)
      × (get source.file.rel_path ((after (update_file world source) p).manifest).path_hash
          ≡ some (hash, new_type))
      × (get old_type ((after (update_file world source) p).manifest).tables
          ≡ get old_type p.manifest.tables)
update_file-stale world source hash old_hash new_type old_type items p table hashed recorded differs
      made plain named other found =
    let q = noted source old_type new_type p in
    let same : q.manifest ≡ p.manifest = noted-manifest source old_type new_type p in
    let run =
      update_file-store world source hash old_hash new_type old_type items p hashed recorded differs
        made in
    let (a, b, c) =
      store_items-other world source.file.rel_path hash new_type old_type items true q table plain
        named other (ap (λ (m : Manifest). get new_type m.tables) same ∙ found) in
    (
      ap (λ r. r.0) run ∙ a,
      ap (λ (r : Result (Unit {0}) × Progress). get source.file.rel_path r.1.manifest.path_hash) run
          ∙ b,
      ap (λ (r : Result (Unit {0}) × Progress). get old_type r.1.manifest.tables) run
          ∙ c
          ∙ ap (λ (m : Manifest). get old_type m.tables) same,
    )
