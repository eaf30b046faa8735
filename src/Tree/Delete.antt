-- ===== src/Tree/Delete.antt =====
-- `Delete` of internal/btree/btree.go, with the repair of pages that hold too few entries.
use index_lab.Errors.{ok}
use index_lab.Key.{encode_int64}
use index_lab.Leaf
use index_lab.Node.{
  encode_child_id, find_child_index, find_sibling_page_ids, redistribute_from_left,
  redistribute_from_right, redistribute_internal_from_left, redistribute_internal_from_right,
  merge_leaf, merge_internal, entry_prefix,
}
use index_lab.Page.{
  Page, PageId, num_entries, insert_entry, delete_entry, min_entries, next_leaf_page_id,
  prev_leaf_page_id, set_prev_leaf_page_id, leftmost_child_page_id, new_metadata_page,
}
use index_lab.Prelude.{
  ℕ, ◌+◌, Bool, true, false, ◌&&◌, not, Option, none, some, List, [], ◌∷◌, ◌++◌, leb, ltb, ◌==◌,
}
use index_lab.Prelude.Int.{ℤ, pos}
use index_lab.Storage.{word64}
use index_lab.Tree.{
  Step, pure, ◌>>=◌, ◌>>◌, lift, lift_result, read_page, write_page, set_root_id,
  find_leaf_with_path,
}

-- `t.pageMerges++`.
unfoldable pub count_merge : Step (Unit {0})
count_merge t = some (record t { page_merges = word64 (t.page_merges + 1) }, ok tt)

-- `page.MinEntries(t.entrySize)`.
unfoldable pub least_entries : Step ℕ
least_entries t = lift (min_entries t.entry_size) t

-- A page that may be nil: ID 0 stands for none.
unfoldable pub read_optional : PageId → Step (Option Page)
read_optional id = elim (id == 0) [ true ↦ pure none | false ↦ do p ← read_page id; pure (some p) ]

-- `p != nil && p.NumEntries() > least`.
unfoldable pub can_lend : Option Page → ℕ → Bool
can_lend none least = false
can_lend (some p) least = ltb least (num_entries p)

-- The parent's entry for a child gets a new separator.
unfoldable pub replace_separator : Page → List ℕ → PageId → Option Page
replace_separator parent separator child = elim (find_child_index parent child) [
  | none ↦ none
  | some (idx, _) ↦ elim (delete_entry parent idx) [
    | none ↦ none
    | some parent' ↦ insert_entry parent' idx (separator ++ encode_child_id child)
  ]
]

unfoldable pub delete_child : Page → PageId → Option Page
delete_child parent child = elim (find_child_index parent child) [
  | none ↦ none
  | some (idx, _) ↦ delete_entry parent idx
]

unfoldable pub redistribute_leaf_from_left : Page → Page → Page → Step (Unit {0})
redistribute_leaf_from_left leaf left parent = do
  r ← lift (redistribute_from_left leaf left)
  parent' ← lift (replace_separator parent r.separator leaf.id)
  write_page r.underflowing
  write_page r.sibling
  write_page parent'

unfoldable pub redistribute_leaf_from_right : Page → Page → Page → Step (Unit {0})
redistribute_leaf_from_right leaf right parent = do
  r ← lift (redistribute_from_right leaf right)
  parent' ← lift (replace_separator parent r.separator right.id)
  write_page r.underflowing
  write_page r.sibling
  write_page parent'

-- `GetEntry(idx)[:8]` of the parent's entry for a child.
unfoldable pub old_separator : Page → PageId → Option (List ℕ)
old_separator parent child = elim (find_child_index parent child) [
  | none ↦ none
  | some (idx, _) ↦ entry_prefix parent idx (pos 8)
]

unfoldable pub redistribute_internal_node_from_left : Page → Page → Page → Step (Unit {0})
redistribute_internal_node_from_left node left grandparent = do
  old ← lift (old_separator grandparent node.id)
  r ← lift (redistribute_internal_from_left node left old)
  grandparent' ← lift (replace_separator grandparent r.separator node.id)
  write_page r.underflowing
  write_page r.sibling
  write_page grandparent'

unfoldable pub redistribute_internal_node_from_right : Page → Page → Page → Step (Unit {0})
redistribute_internal_node_from_right node right grandparent = do
  old ← lift (old_separator grandparent right.id)
  r ← lift (redistribute_internal_from_right node right old)
  grandparent' ← lift (replace_separator grandparent r.separator right.id)
  write_page r.underflowing
  write_page r.sibling
  write_page grandparent'

-- `mergeInternal(left, right, …)` and the parent without the entry for `right`. Both
-- `mergeInternalWithLeft` and `mergeInternalWithRight` start so.
unfoldable pub merge_internal_pages : Page → Page → Page → Step Page
merge_internal_pages left right grandparent = do
  separator ← lift (old_separator grandparent right.id)
  left' ← lift (merge_internal left right separator)
  count_merge
  grandparent' ← lift (delete_child grandparent right.id)
  write_page left'
  pure grandparent'

-- `finishInternalMerge`, with what it does to a page that holds too few entries.
unfoldable pub finish_with : Bool → Page → Step (Unit {0}) → Step (Unit {0})
finish_with is_root grandparent fix = do
  least ← least_entries
  elim (not is_root && leb least (num_entries grandparent)) [
    | true ↦ write_page grandparent
    | false ↦ elim (is_root && ltb 0 (num_entries grandparent)) [
      | true ↦ write_page grandparent
      | false ↦ fix
    ]
  ]

abbrev is_empty : List PageId → Bool
is_empty [] = true
is_empty (id ∷ ids) = false

unfoldable pub fix_internal_underflow : Page → List PageId → Step (Unit {0})
fix_internal_underflow node [] = elim (num_entries node == 0) [
  | true ↦ do
    write_page (new_metadata_page 0 (leftmost_child_page_id node))
    set_root_id (leftmost_child_page_id node)
  | false ↦ write_page node
]
fix_internal_underflow node (parent_id ∷ ancestors) = do
  grandparent ← read_page parent_id
  (left_id, right_id) ← lift (find_sibling_page_ids grandparent node)
  left_sibling ← read_optional left_id
  right_sibling ← read_optional right_id
  least ← least_entries
  elim left_sibling [
    | none ↦ do
      right ← lift right_sibling
      elim (ltb least (num_entries right)) [
        | true ↦ redistribute_internal_node_from_right node right grandparent
        | false ↦ do
          grandparent' ← merge_internal_pages node right grandparent
          finish_with (is_empty ancestors) grandparent'
              (fix_internal_underflow grandparent' ancestors)
      ]
    | some left ↦ elim (ltb least (num_entries left)) [
      | true ↦ redistribute_internal_node_from_left node left grandparent
      | false ↦ elim (can_lend right_sibling least) [
        | true ↦ do
          right ← lift right_sibling
          redistribute_internal_node_from_right node right grandparent
        | false ↦ do
          grandparent' ← merge_internal_pages left node grandparent
          finish_with (is_empty ancestors) grandparent'
              (fix_internal_underflow grandparent' ancestors)
      ]
    ]
  ]

-- `finishInternalMerge` for the ancestors of a leaf. There is one at least.
unfoldable pub finish_internal_merge : Page → List PageId → Step (Unit {0})
finish_internal_merge grandparent [] = lift none
finish_internal_merge grandparent (id ∷ ancestors) =
    finish_with (is_empty ancestors) grandparent (fix_internal_underflow grandparent ancestors)

-- `rightPage.SetPrevLeafPageID(…)` for the leaf that follows a merged one.
unfoldable pub relink_next : Page → Step (Unit {0})
relink_next merged = elim (next_leaf_page_id merged == 0) [
  | true ↦ pure tt
  | false ↦ do
    next ← read_page (next_leaf_page_id merged)
    write_page (set_prev_leaf_page_id next merged.id)
]

-- `mergeLeafWithLeft(leaf, leftPage, …)` is this with `leftPage` and `leaf`, and
-- `mergeLeafWithRight(leaf, rightPage, …)` is this with `leaf` and `rightPage`.
unfoldable pub merge_leaf_pages : Page → Page → Page → List PageId → Step (Unit {0})
merge_leaf_pages left right parent ancestors = do
  (left', _) ← lift (merge_leaf left right)
  count_merge
  relink_next left'
  parent' ← lift (delete_child parent right.id)
  write_page left'
  finish_internal_merge parent' ancestors

unfoldable pub fix_leaf_underflow : Page → PageId → List PageId → Step (Unit {0})
fix_leaf_underflow leaf parent_id ancestors = do
  parent ← read_page parent_id
  left_page ← read_optional (prev_leaf_page_id leaf)
  right_page ← read_optional (next_leaf_page_id leaf)
  least ← least_entries
  elim left_page [
    | none ↦ do
      right ← lift right_page
      elim (ltb least (num_entries right)) [
        | true ↦ redistribute_leaf_from_right leaf right parent
        | false ↦ merge_leaf_pages leaf right parent ancestors
      ]
    | some left ↦ elim (ltb least (num_entries left)) [
      | true ↦ redistribute_leaf_from_left leaf left parent
      | false ↦ elim (can_lend right_page least) [
        | true ↦ do right ← lift right_page; redistribute_leaf_from_right leaf right parent
        | false ↦ merge_leaf_pages left leaf parent ancestors
      ]
    ]
  ]

-- The rest of `Delete`, once the row is out of the leaf.
unfoldable pub after_delete : Page → List PageId → Step (Unit {0})
after_delete leaf [] = write_page leaf
after_delete leaf (parent_id ∷ ancestors) = do
  least ← least_entries
  elim (leb least (num_entries leaf)) [
    | true ↦ write_page leaf
    | false ↦ fix_leaf_underflow leaf parent_id (parent_id ∷ ancestors)
  ]

unfoldable pub delete : ℕ → ℤ → Step (Unit {0})
delete fuel key = do
  (leaf, ancestors) ← find_leaf_with_path fuel (encode_int64 key)
  deleted ← lift (Leaf.delete leaf key)
  leaf' ← lift_result deleted
  after_delete leaf' ancestors
