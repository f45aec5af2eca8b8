-- ===== src/Manifest/Reftests/Referred.antt =====
-- To which URLs the nodes refer: the first loop of `_compute_reftests` of
-- tools/manifest/manifest.py.
use wmas.Prelude.{
  String, Bool, true, ◌||◌, List, [], ◌∷◌, ◌++◌, ◌==◌, ◌≡◌, refl, arith, any_of, mem_text, add_text,
  All, Bool-cases, inl, inr, eq_iff,
}
use wmas.Exec.{ok}
use wmas.Manifest.Items.{Item, References, ref_test, ref_test_node}
use wmas.Manifest.Reftests.{add_targets, inbound, references_of, is_ref_test_node}

abbrev has_target : String → References → Bool
has_target url refs = any_of (λ (r : String × String). r.0 == url) refs

-- The references of a node, whatever their relation.
abbrev links : Item → References
links (ref_test u r) = r.references
links (ref_test_node u r) = r.references
links _ = []

-- Does a node refer to the URL?
abbrev pub is_referred : List Item → String → Bool
is_referred nodes url = any_of (λ node. has_target url (links node)) nodes

abbrev pub Nodes : List Item → Type 0
Nodes items = All (λ (i : Item). is_ref_test_node i ≡ true) items

mem_text-append :
    (x : String) (xs ys : List String) → mem_text x (xs ++ ys) ≡ mem_text x xs || mem_text x ys
unfolding mem_text
mem_text-append x [] ys = refl
mem_text-append x (y ∷ xs) ys = ground (arith, mem_text-append x xs ys)

mem_text-add_text :
    (x y : String) (xs : List String) → mem_text x (add_text y xs) ≡ mem_text x xs || y == x
unfolding add_text mem_text
mem_text-add_text x y xs = elim (Bool-cases (mem_text y xs)) [
  | inl e ↦ ground (arith, e, eq_iff y x)
  | inr e ↦ ground (arith, e, mem_text-append x xs (y ∷ []))
]

mem_text-add_targets :
    (x : String) (urls : List String) (refs : References)
    → mem_text x (add_targets urls refs) ≡ mem_text x urls || has_target x refs
unfolding any_of
mem_text-add_targets x urls [] = ground arith
mem_text-add_targets x urls ((url, type) ∷ refs) =
    ground (arith, mem_text-add_text x url urls, mem_text-add_targets x (add_text url urls) refs)

-- The first loop collects the URLs to which a node refers.
inbound-from :
    (items : List Item) (urls : List String)
    → Nodes items
    → (all_urls : List String) × (inbound urls items ≡ ok all_urls)
      × ((x : String) → mem_text x all_urls ≡ mem_text x urls || is_referred items x)
unfolding inbound references_of any_of
inbound-from [] urls nodes = (urls, refl, λ x. ground arith)
inbound-from (ref_test u r ∷ items) urls nodes =
    let more = inbound-from items (add_targets urls r.references) nodes.1 in
    (more.0, more.1, λ x. ground (arith, more.2 x, mem_text-add_targets x urls r.references))
inbound-from (ref_test_node u r ∷ items) urls nodes =
    let more = inbound-from items (add_targets urls r.references) nodes.1 in
    (more.0, more.1, λ x. ground (arith, more.2 x, mem_text-add_targets x urls r.references))
inbound-from (_ ∷ items) urls nodes = ground arith

pub inbound_lem :
    (items : List Item)
    → Nodes items
    → (urls : List String) × (inbound [] items ≡ ok urls)
      × ((x : String) → mem_text x urls ≡ is_referred items x)
unfolding mem_text
inbound_lem items nodes = inbound-from items [] nodes
