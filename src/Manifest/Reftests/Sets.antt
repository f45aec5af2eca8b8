-- ===== src/Manifest/Reftests/Sets.antt =====
-- The dictionaries of sets of items that `_compute_reftests` of tools/manifest/manifest.py fills.
use wmas.Prelude.{
  String, Bool, true, false, ◌||◌, Option, some, List, [], ◌∷◌, ◌++◌, ◌==◌, ◌≡◌, refl,
  if◌then◌else◌, arith, any_of, or_else, All, eq_iff, eq_refl, Bool-cases, inl, inr,
}
use wmas.Prelude.Dict.{Dict, get, put, get-put}
use wmas.Manifest.Items.{Item, item_id, same_item, key}
use wmas.Manifest.TypeData.{add_item}
use wmas.Manifest.Reftests.{add_at}

-- Every item under every path.
abbrev pub AllItems : (Item → Type 0) → Dict (List Item) → Type 0
AllItems P [] = Unit
AllItems P ((path, items) ∷ d) = All P items × AllItems P d

pub either {ℓ} :
    {A : Type ℓ} (P : A → Type 0) (b : Bool) (x y : A) → P x → P y → P (if b then x else y)
either P true x y px py = px
either P false x y px py = py

AllItems-get :
    (P : Item → Type 0) (path : String) (d : Dict (List Item))
    → AllItems P d
    → All P (or_else (get path d) [])
unfolding get
AllItems-get P path [] all = tt
AllItems-get P path ((k, items) ∷ d) all =
    either (λ (o : Option (List Item)). All P (or_else o [])) (k == path) (some items) (get path d)
      all.0 (AllItems-get P path d all.1)

AllItems-put :
    (P : Item → Type 0) (path : String) (items : List Item) (d : Dict (List Item))
    → All P items
    → AllItems P d
    → AllItems P (put path items d)
unfolding put
AllItems-put P path items [] new all = (new, tt)
AllItems-put P path items ((k, old) ∷ d) new all =
    either (AllItems P) (k == path) ((k, items) ∷ d) ((k, old) ∷ put path items d) (new, all.1)
      (all.0, AllItems-put P path items d new all.1)

All-append :
    (P : Item → Type 0) (items : List Item) (x : Item)
    → All P items
    → P x
    → All P (items ++ (x ∷ []))
All-append P [] x all px = (px, tt)
All-append P (i ∷ items) x all px = (all.0, All-append P items x all.1 px)

pub add_at-AllItems :
    (P : Item → Type 0) (urljoin : String → String → String) (path : String) (item : Item)
    (d : Dict (List Item))
    → P item
    → AllItems P d
    → AllItems P (add_at urljoin path item d)
unfolding add_at add_item
add_at-AllItems P urljoin path item d px all =
    let old = or_else (get path d) [] in
    let held : All P old = AllItems-get P path d all in
    AllItems-put P path (add_item urljoin old item) d
      (either (All P) _ old (old ++ (item ∷ [])) held (All-append P old item held px)) all

any_of-append :
    (p : Item → Bool) (xs ys : List Item) → any_of p (xs ++ ys) ≡ any_of p xs || any_of p ys
unfolding any_of
any_of-append p [] ys = refl
any_of-append p (x ∷ xs) ys = ground (arith, any_of-append p xs ys)

any_of-imp :
    (p r : Item → Bool) (xs : List Item)
    → ((x : Item) → p x ≡ true → r x ≡ true)
    → any_of p xs ≡ true
    → any_of r xs ≡ true
unfolding any_of
any_of-imp p r [] imp h = ground arith
any_of-imp p r (x ∷ xs) imp h = ground (arith, Bool-cases (p x), imp x, any_of-imp p r xs imp)

-- A list that is left as it is where an element passes the first test, and else gets a new one.
any_of-grown :
    (p r : Item → Bool) (xs : List Item) (x : Item)
    → ((y : Item) → p y ≡ true → r y ≡ true)
    → r x ≡ true
    → any_of r (if any_of p xs then xs else xs ++ x ∷ []) ≡ true
unfolding any_of
any_of-grown p r xs x imp h = elim (Bool-cases (any_of p xs)) [
  | inl e ↦ rw e (any_of-imp p r xs imp e)
  | inr e ↦ rw e (ground (arith, h, any_of-append r xs (x ∷ [])))
]

module _ (urljoin : String → String → String) where
  abbrev has_id : String → Item → Bool
  has_id url item = item_id urljoin item == url

  -- Does an item with this URL stand under the path?
  abbrev pub stands : (url path : String) → Dict (List Item) → Bool
  stands url path d = any_of (has_id url) (or_else (get path d) [])

  stands-add_item_old :
      (url : String) (items : List Item) (item : Item)
      → any_of (has_id url) items ≡ true
      → any_of (has_id url) (add_item urljoin items item) ≡ true
  unfolding add_item
  stands-add_item_old url items item h =
      either (λ xs. any_of (has_id url) xs ≡ true) _ items (items ++ item ∷ []) h
        (ground (arith, h, any_of-append (has_id url) items (item ∷ [])))

  stands-add_item :
      (items : List Item) (item : Item)
      → any_of (has_id (item_id urljoin item)) (add_item urljoin items item) ≡ true
  unfolding add_item same_item any_of key
  stands-add_item items item =
      any_of-grown _ (has_id (item_id urljoin item)) items item (λ x h. ground (arith, h))
        (eq_refl (item_id urljoin item))

  -- What stands there stays.
  pub stands-add_at_old :
      (url path at : String) (item : Item) (d : Dict (List Item))
      → stands url path d ≡ true
      → stands url path (add_at urljoin at item d) ≡ true
  unfolding add_at
  stands-add_at_old url path at item d h = ground (
    arith,
    h,
    eq_iff at path,
    get-put at path (add_item urljoin (or_else (get at d) []) item) d,
    stands-add_item_old url (or_else (get at d) []) item,
  )

  -- An item that is added stands there.
  pub stands-add_at :
      (path : String) (item : Item) (d : Dict (List Item))
      → stands (item_id urljoin item) path (add_at urljoin path item d) ≡ true
  unfolding add_at
  stands-add_at path item d = ground (
    arith,
    get-put path path (add_item urljoin (or_else (get path d) []) item) d,
    eq_refl path,
    stands-add_item (or_else (get path d) []) item,
  )
