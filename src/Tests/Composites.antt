-- ===== src/Tests/Composites.antt =====
-- A leaf of composite.go with one entry.
use index_lab.Composite.{insert_composite, search_leaf, delete_in_leaf}
use index_lab.Composite.Correct.{
  composite_entry, length-composite_entry, answer_entry, insert_composite-IsSorted,
  search_leaf-lookup_entry, delete_in_leaf-remove_first,
}
use index_lab.Composite.Entries.{lookup_entry, remove_first}
use index_lab.Errors.{ok, err, key_not_found}
use index_lab.Key.{encode_composite_key}
use index_lab.Key.Order.{compare_keys_refl}
use index_lab.Node.Entry.{Sized}
use index_lab.Node.Find.{IsSorted, IsPlace}
use index_lab.Page.{Page, new_leaf_page}
use index_lab.Page.Header.{new_leaf_page-Layout}
use index_lab.Page.Insert.{insert_entry-Layout}
use index_lab.Page.Layout.{Layout, SameHeader}
use index_lab.Prelude.{
  ℕ, zero, suc, ◌≡◌, ◌⊎◌, Bool, none, some, List, [], ◌∷◌, take, insert_at, arith,
}
use index_lab.Prelude.Int.{pos, negsuc}

abbrev one_entry : List (List ℕ)
one_entry = composite_entry (negsuc 2) (pos 8) (pos 40) ∷ []

leaf : (p : Page) × Layout p one_entry
leaf =
    let (q, _, l, _) =
      insert_entry-Layout (new_leaf_page 1) [] 0 (composite_entry (negsuc 2) (pos 8) (pos 40))
        (new_leaf_page-Layout 1).0 (omega arith)
        (omega (arith, length-composite_entry (negsuc 2) (pos 8) (pos 40))) in
    (q, l)

one_entry-Sized : Sized 16 one_entry
one_entry-Sized zero h = length-composite_entry (negsuc 2) (pos 8) (pos 40)
one_entry-Sized (suc i) h = absurd (omega arith)

one_entry-IsSorted : IsSorted 16 one_entry
one_entry-IsSorted zero zero le h e =
    ground (arith, compare_keys_refl (take 16 (composite_entry (negsuc 2) (pos 8) (pos 40))), e)
one_entry-IsSorted zero (suc k) le h e = absurd (omega arith)
one_entry-IsSorted (suc i) k le h e = absurd (omega arith)

insert_composite-IsSorted_example :
    (i : ℕ) × (found : Bool) × (q : Page) × (insert_composite leaf.0 (pos 1) (pos 2) (pos 41)
      ≡ some (ok q))
    × IsPlace 16 one_entry (encode_composite_key (pos 1) (pos 2)) i found
    × Layout q (insert_at i (composite_entry (pos 1) (pos 2) (pos 41)) one_entry)
    × Sized 16 (insert_at i (composite_entry (pos 1) (pos 2) (pos 41)) one_entry)
    × IsSorted 16 (insert_at i (composite_entry (pos 1) (pos 2) (pos 41)) one_entry)
    × SameHeader leaf.0 q
insert_composite-IsSorted_example =
    insert_composite-IsSorted leaf.0 one_entry (pos 1) (pos 2) leaf.1 one_entry-Sized
      one_entry-IsSorted (pos 41) (omega arith)

search_leaf-lookup_entry_example :
    search_leaf leaf.0 (negsuc 2) (pos 8)
    ≡ answer_entry (lookup_entry 16 (encode_composite_key (negsuc 2) (pos 8)) one_entry)
search_leaf-lookup_entry_example =
    search_leaf-lookup_entry leaf.0 one_entry (negsuc 2) (pos 8) leaf.1 one_entry-Sized
      one_entry-IsSorted

delete_in_leaf-remove_first_example :
    ((lookup_entry 16 (encode_composite_key (negsuc 2) (pos 8)) one_entry ≡ none)
      × (delete_in_leaf leaf.0 (negsuc 2) (pos 8) ≡ some (err key_not_found)))
    ⊎ ((e : List ℕ) × (q : Page) × (lookup_entry 16
            (encode_composite_key (negsuc 2) (pos 8))
            one_entry
          ≡ some e)
        × (delete_in_leaf leaf.0 (negsuc 2) (pos 8) ≡ some (ok q))
        × Layout q (remove_first 16 (encode_composite_key (negsuc 2) (pos 8)) one_entry)
        × SameHeader leaf.0 q)
delete_in_leaf-remove_first_example =
    delete_in_leaf-remove_first leaf.0 one_entry (negsuc 2) (pos 8) leaf.1 one_entry-Sized
      one_entry-IsSorted
