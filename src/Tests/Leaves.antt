-- ===== src/Tests/Leaves.antt =====
-- Leaves with rows of keys and record IDs.
use index_lab.Errors.{ok}
use index_lab.Leaf.{insert, search, delete}
use index_lab.Leaf.Correct.{IsLeaf, search-lookup_row, delete-IsLeaf, insert-IsLeaf}
use index_lab.Leaf.Rows.{Row, lookup_row, insert_row, remove_row}
use index_lab.Page.{Page, new_leaf_page}
use index_lab.Page.Header.{new_leaf_page-Layout}
use index_lab.Page.Layout.{SameHeader}
use index_lab.Prelude.{
  ℕ, zero, suc, ◌≤◌, ◌≡◌, refl, ap, ◌∙◌, true, some, List, [], ◌∷◌, length, arith,
}
use index_lab.Prelude.Int.{ℤ, pos, negsuc}

abbrev leaf_0 : Page
leaf_0 = new_leaf_page 3

leaf_0-IsLeaf : IsLeaf leaf_0 []
leaf_0-IsLeaf = record { stored = (new_leaf_page-Layout 3).0; int64 = tt; ascending = tt }

abbrev one_row : List Row
one_row = (negsuc 6, pos 40) ∷ []

abbrev leaf_1 : Page
leaf_1 =
    (insert-IsLeaf leaf_0 [] (negsuc 6) leaf_0-IsLeaf (omega arith) (pos 40) (omega arith)
      (omega arith)).0

leaf_1-IsLeaf : IsLeaf leaf_1 one_row
unfolding insert_row
leaf_1-IsLeaf =
    (insert-IsLeaf leaf_0 [] (negsuc 6) leaf_0-IsLeaf (omega arith) (pos 40) (omega arith)
      (omega arith)).2

insert-IsLeaf_example :
    (q : Page) × (insert leaf_1 (pos 2) (pos 41) ≡ some (ok q))
    × IsLeaf q ((negsuc 6, pos 40) ∷ (pos 2, pos 41) ∷ [])
    × SameHeader leaf_1 q
unfolding insert_row
insert-IsLeaf_example =
    insert-IsLeaf leaf_1 one_row (pos 2) leaf_1-IsLeaf (omega arith) (pos 41) (omega arith)
      (omega arith)

search-lookup_row_example : search leaf_1 (negsuc 6) ≡ some (pos 40, true)
unfolding lookup_row
search-lookup_row_example = search-lookup_row leaf_1 one_row (negsuc 6) leaf_1-IsLeaf (omega arith)

delete-IsLeaf_example :
    (q : Page) × (delete leaf_1 (negsuc 6) ≡ some (ok q)) × IsLeaf q [] × SameHeader leaf_1 q
unfolding lookup_row remove_row
delete-IsLeaf_example =
    delete-IsLeaf leaf_1 one_row (negsuc 6) leaf_1-IsLeaf (omega arith) (pos 40) refl

length-insert_row :
    (key v : ℤ) (rows : List Row) → length (insert_row key v rows) ≡ suc (length rows)
unfolding insert_row
length-insert_row key v [] = refl
length-insert_row key v ((k, w) ∷ rows) = ground (arith, length-insert_row key v rows)

-- A leaf with `n` rows, filled by insertions.
filled : (n : ℕ) → n ≤ 203 → (p : Page) × (rows : List Row) × IsLeaf p rows × (length rows ≡ n)
filled zero h = (leaf_0, [], leaf_0-IsLeaf, refl)
filled (suc n) h =
    let (p, rows, l, size) = filled n (omega arith) in
    let (q, _, l', _) =
      insert-IsLeaf p rows (pos n) l (omega arith) (pos n) (omega arith) (omega (arith, size)) in
    (q, insert_row (pos n) (pos n) rows, l', length-insert_row (pos n) (pos n) rows ∙ ap suc size)

abbrev full_leaf : Page
full_leaf = (filled 203 (omega arith)).0
