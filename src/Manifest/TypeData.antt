-- ===== src/Manifest/TypeData.antt =====
-- The items of one type, loaded when they are asked for: `TypeData` of
-- tools/manifest/manifest.py, and the paths of tools/manifest/utils.py on a POSIX system.
use wmas.Prelude.{
  String, Bool, true, false, not, ◌&&◌, ◌||◌, Option, none, some, List, [], ◌∷◌, ◌++◌, ◌==◌,
  if◌then◌else◌, contains_text, any_of, union_texts, or_else,
}
use wmas.Prelude.Dict.{Dict, get, has, put, del, keys}
use wmas.Data.{Error, value_error, key_error}
use wmas.Exec.{Result, ok, raised, Exec, pure, gets, lift, modify, ◌>>=◌, ◌>>◌}
use wmas.Manifest.Names.{SourceFile}
use wmas.Manifest.Items.{Item, ItemClass, Entry, Extra, text, flag, same_item, meta_key, from_json}

-- What the manifest hands to its tables, and the function `urljoin`.
pub record Setting : Type 0 where
  pub url_base : String
  pub meta_filters : List (List Entry → List Entry)
  pub urljoin : String → String → String

-- `TypeData`; `none` in `json_data` is the `None` that
-- `load_all` leaves. `item_data` is `data`, and a
-- set of items is a list.
pub record TypeData : Type 0 where
  pub type_cls : ItemClass
  pub json_data : Option (Dict (List Entry))
  pub tests_root : String
  pub item_data : Dict (List Item)

-- A table together with the cache of files that all items share.
pub record Table : Type 0 where
  pub table : TypeData
  pub files : Dict SourceFile

-- `from_os_path` and `to_os_path`
unfoldable pub check_path : String → Result String
unfolding contains_text
check_path path = if contains_text "\\" path then raised value_error else ok path

-- `iterfilter`
unfoldable pub iterfilter : List (List Entry → List Entry) → List Entry → List Entry
iterfilter [] entries = entries
iterfilter (f ∷ fs) entries = iterfilter fs (f entries)

abbrev same_extra : Option Extra → Option Extra → Bool
same_extra none none = true
same_extra (some (text s)) (some (text t)) = s == t
same_extra (some (flag a)) (some (flag b)) = a && b || not a && not b
same_extra _ _ = false

abbrev same_extras : List (Option Extra) → List (Option Extra) → Bool
same_extras [] [] = true
same_extras (x ∷ xs) (y ∷ ys) = same_extra x y && same_extras xs ys
same_extras _ _ = false

-- `data.add(item)`: a set holds one of the items that are equal and have the same hash, which is
-- that of `key() + meta_key()`.
unfoldable pub add_item : (String → String → String) → List Item → Item → List Item
unfolding same_item meta_key
add_item urljoin items item =
    if any_of
      (λ other. same_item urljoin other item && same_extras (meta_key other) (meta_key item)) items
    then items
    else items ++ (item ∷ [])

-- The loop that makes the items of a path.
unfoldable pub read_items :
    Setting
    → ItemClass
    → String
    → String
    → List Entry
    → List Item
    → Exec (Dict SourceFile) (List Item)
unfolding from_json add_item
read_items setting cls tests_root path [] items = pure items
read_items setting cls tests_root path (entry ∷ entries) items = do
  item ← from_json cls tests_root setting.url_base path entry
  read_items setting cls tests_root path entries (add_item setting.urljoin items item)

-- The entries of a path that pass the filters.
abbrev pub entries_of : Setting → String → Dict (List Entry) → List Entry
entries_of setting path json_data =
    iterfilter setting.meta_filters (or_else (get path json_data) [])

-- `load`, for a table that still has its JSON: the path leaves it.
abbrev loaded : String → String → Dict (List Entry) → List Item → TypeData → TypeData
loaded key path json_data items table = record table {
  json_data = some (del path json_data);
  item_data = put key items table.item_data;
}

-- `load`
unfoldable pub load : Setting → String → Exec Table (Unit {0})
unfolding check_path read_items iterfilter
load setting key state = elim state.table.json_data [
  | none ↦ (raised value_error, state)
  | some json_data ↦ elim (check_path key) [
    | raised e ↦ (raised e, state)
    | ok path ↦
        let (r, files) =
          read_items setting state.table.type_cls state.table.tests_root path
            (entries_of setting path json_data) [] state.files in
        elim r [
          | raised e ↦ (raised e, record state { files = files })
          | ok items ↦
              (ok tt, record { table = loaded key path json_data items state.table; files = files })
        ]
  ]
]

-- `self.data[key]`
abbrev found_or : Error → Option (List Item) → Result (List Item)
found_or e none = raised e
found_or e (some items) = ok items

-- `__getitem__`
unfoldable pub get_item : Setting → String → Exec Table (List Item)
unfolding load
get_item setting key state = elim (get key state.table.item_data) [
  | some items ↦ (ok items, state)
  | none ↦
      (do
        load setting key
        loaded_table ← gets (λ s. s.table)
        lift (found_or key_error (get key loaded_table.item_data)))
        state
]

-- `__setitem__`
unfoldable pub set_item : String → List Item → TypeData → TypeData
set_item key items table = record table { item_data = put key items table.item_data }

-- `__delitem__`
unfoldable pub delete_item : String → TypeData → Result TypeData
delete_item key table =
    if has key table.item_data
    then ok (record table { item_data = del key table.item_data })
    else raised key_error

-- The loop of `load_all`; the items that were made before an error stay.
unfoldable pub load_paths : Setting → Dict (List Entry) → List String → Exec Table (Unit {0})
unfolding check_path read_items iterfilter
load_paths setting json_data [] state = (ok tt, state)
load_paths setting json_data (path ∷ paths) state =
    let skipped = load_paths setting json_data paths state in
    let (r, files) =
      read_items setting state.table.type_cls state.table.tests_root path
        (entries_of setting path json_data) [] state.files in
    elim (check_path path) [
      | raised e ↦ (raised e, state)
      | ok key ↦ if has key state.table.item_data then skipped else elim r [
        | raised e ↦ (raised e, record state { files = files })
        | ok items ↦
            load_paths setting json_data paths
              (record { table = set_item key items state.table; files = files })
      ]
    ]

-- `load_all`
unfoldable pub load_all : Setting → Exec Table (Unit {0})
unfolding load_paths
load_all setting state = elim state.table.json_data [
  | none ↦ (ok tt, state)
  | some json_data ↦
      (do
        load_paths setting json_data (keys json_data)
        modify (λ s. record s { table = record (s.table) { json_data = none } }))
        state
]

-- `__contains__`
unfoldable pub contains : Setting → String → Exec Table Bool
unfolding load_all
contains setting key = do load_all setting; gets (λ s. has key s.table.item_data)

-- `get`: a ValueError gives the default.
unfoldable pub get_default : Setting → String → Option (List Item) → Exec Table (Option (List Item))
unfolding get_item
get_default setting key default state =
    let (r, state') = get_item setting key state in
    elim r [
      | ok items ↦ (ok (some items), state')
      | raised value_error ↦ (ok default, state')
      | raised e ↦ (raised e, state')
    ]

-- `pop`
unfoldable pub pop : Setting → String → Option (List Item) → Exec Table (Option (List Item))
unfolding get_item delete_item
pop setting key default state =
    let (r, state') = get_item setting key state in
    elim r [
      | ok items ↦ elim (delete_item key state'.table) [
        | raised e ↦ (raised e, state')
        | ok table ↦ (ok (some items), record state' { table = table })
      ]
      | raised value_error ↦ (ok default, state')
      | raised e ↦ (raised e, state')
    ]

-- `set_json`
unfoldable pub set_json : String → Dict (List Entry) → TypeData → TypeData
set_json tests_root json_data table = record table {
  json_data = some json_data;
  tests_root = tests_root;
}

abbrev checked_paths : List String → Result (List String)
checked_paths [] = ok []
checked_paths (path ∷ rest) = elim (check_path path) [
  | raised e ↦ raised e
  | ok key ↦ elim (checked_paths rest) [ raised e ↦ raised e | ok more ↦ ok (key ∷ more) ]
]

-- `paths`
unfoldable pub paths : TypeData → Result (List String)
unfolding check_path
paths table = elim table.json_data [
  | none ↦ ok (keys table.item_data)
  | some json_data ↦ elim (checked_paths (keys json_data)) [
    | raised e ↦ raised e
    | ok more ↦ ok (union_texts (keys table.item_data) more)
  ]
]
