-- ===== src/Tests/Trees.antt =====
-- The theorems on trees of any height, on the tree of `Tests/Forest`.
use index_lab.Errors.{Result, duplicate_key, key_not_found}
use index_lab.Key.{encode_int64}
use index_lab.Leaf.Rows.{lookup_row, insert_row, remove_row}
use index_lab.Node.{find_child_page_id}
use index_lab.Node.Child.{child_of, find_child_page_id-child_of}
use index_lab.Page.{Page, PageId, leftmost_child_page_id}
use index_lab.Prelude.{◌≡◌, inl, refl, Bool, true, false, some, List, [], ◌∷◌, arith}
use index_lab.Prelude.Int.{ℤ, pos, negsuc}
use index_lab.Store.{Store}
use index_lab.Store.Failure.{ErrsOnly}
use index_lab.Tree.{Tree, find_leaf_with_path, search}
use index_lab.Tree.Change.{Outcome, IsFull, IsScarce, insert-Outcome, delete-Outcome}
use index_lab.Tree.Delete.{delete}
use index_lab.Tree.Insert.{insert}
use index_lab.Tree.Ordered.{IsOrdered, IsAnswer, search-IsFound}
use index_lab.Tree.Range.{rows_up_to, scan_page-rows_up_to}
use index_lab.Tree.Refuse.{Refuses, insert-Refuses, delete-Refuses}
use index_lab.Tree.Rows.{scan_page}
use index_lab.Tests.Forest.{left_rows, rows, branches, left_leaf, root, tree, pages, tree-IsOrdered}

find_child_page_id-child_of_example :
    find_child_page_id root.0 (encode_int64 (pos 5))
    ≡ some (child_of (leftmost_child_page_id root.0) (pos 5) branches)
find_child_page_id-child_of_example =
    find_child_page_id-child_of root.0 branches (pos 5) root.1.stored root.1.encoded
      root.1.ascending (omega arith)

search-IsFound_example :
    (s : Store) × (r : Result (Page × List PageId)) × (a : ℤ × Bool) × (find_leaf_with_path 2
        (encode_int64 (pos 5))
        tree
      ≡ some (record tree { store = s }, r))
    × (search 2 (pos 5) tree ≡ some (record tree { store = s }, a))
    × IsAnswer (pos 5) rows r a
    × ErrsOnly tree.store r
    × IsOrdered (record tree { store = s }) 1 rows pages
search-IsFound_example =
    search-IsFound 1 2 (pos 5) tree rows pages (omega arith) tree-IsOrdered (omega arith)

insert-Outcome_example :
    Outcome IsFull tree 1 2
      (pos 3)
      rows
      (insert_row (pos 3) (pos 30) rows)
      pages
      (insert 2 (pos 3) (pos 30))
insert-Outcome_example =
    insert-Outcome 1 2 (pos 3) tree rows pages (omega arith) tree-IsOrdered (omega arith) (pos 30)
      (omega arith) (inl refl)

delete-Outcome_example :
    Outcome
      (IsScarce (negsuc 6))
      tree
      1
      2
      (negsuc 6)
      rows
      (remove_row (negsuc 6) rows)
      pages
      (delete 2 (negsuc 6))
unfolding lookup_row
delete-Outcome_example =
    delete-Outcome 1 2 (negsuc 6) tree rows pages (omega arith) tree-IsOrdered (omega arith)
      (pos 40) refl refl

abbrev unique_tree : Tree
unique_tree = record tree { unique = true }

unique_tree-IsOrdered : IsOrdered unique_tree 1 rows pages
unique_tree-IsOrdered = record { valid = tree-IsOrdered.valid; shape = tree-IsOrdered.shape }

insert-Refuses_example :
    Refuses duplicate_key unique_tree 1 2 (pos 5) rows pages (insert 2 (pos 5) (pos 51))
unfolding lookup_row
insert-Refuses_example =
    insert-Refuses 1 2 (pos 5) unique_tree rows pages (omega arith) unique_tree-IsOrdered
      (omega arith) (pos 51) (pos 50) refl refl

delete-Refuses_example : Refuses key_not_found tree 1 2 (pos 6) rows pages (delete 2 (pos 6))
unfolding lookup_row
delete-Refuses_example =
    delete-Refuses 1 2 (pos 6) tree rows pages (omega arith) tree-IsOrdered (omega arith) refl

scan_page-rows_up_to_example :
    scan_page 1 left_leaf.0 0 (pos 9)
    ≡ some (record { key = negsuc 6; record_id = pos 40 } ∷ [], false)
unfolding rows_up_to
scan_page-rows_up_to_example =
    scan_page-rows_up_to left_leaf.0 left_rows 0 (pos 9) left_leaf.1 (omega arith)
