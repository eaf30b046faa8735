-- ===== src/Tree/Insert.antt =====
-- `Insert` of internal/btree/btree.go, with the splits that it propagates.
use index_lab.Errors.{ok, err, page_full, duplicate_key}
use index_lab.Key.{encode_int64, compare_keys}
use index_lab.Leaf
use index_lab.Node.{Split, encode_child_id, find_key_index, split_leaf, split_internal, is_ge}
use index_lab.Page.{
  Page, PageId, page_type, internal_page, has_space_for, insert_entry, next_leaf_page_id,
  set_prev_leaf_page_id, new_internal_page, new_metadata_page,
}
use index_lab.Prelude.{ℕ, ◌+◌, true, false, some, List, [], ◌∷◌, ◌++◌, length, ◌==◌}
use index_lab.Prelude.Int.{ℤ}
use index_lab.Storage.{word64}
use index_lab.Tree.{
  Step, pure, fail, ◌>>=◌, ◌>>◌, lift, lift_result, read_page, write_page, allocate_page,
  set_root_id, find_leaf_with_path,
}

-- `t.pageSplits++`.
unfoldable pub count_split : Step (Unit {0})
count_split t = some (record t { page_splits = word64 (t.page_splits + 1) }, ok tt)

unfoldable pub update_next_leaf_prev_link : Page → Step (Unit {0})
update_next_leaf_prev_link new_leaf = elim (next_leaf_page_id new_leaf == 0) [
  | true ↦ pure tt
  | false ↦ do
    next_leaf ← read_page (next_leaf_page_id new_leaf)
    write_page (set_prev_leaf_page_id next_leaf new_leaf.id)
]

-- Inserts the entry at the place of the separator.
unfoldable pub insert_separator : Page → List ℕ → List ℕ → Step Page
insert_separator p separator entry = do
  (idx, _) ← lift (find_key_index p separator)
  lift (insert_entry p idx entry)

unfoldable pub split_parent : Page → Step Split
split_parent parent = do
  fresh ← allocate_page
  elim (page_type parent == internal_page) [
    | true ↦ lift (split_internal parent fresh)
    | false ↦ do r ← lift (split_leaf parent fresh); update_next_leaf_prev_link r.new_page; pure r
  ]

unfoldable pub propagate_split : Page → Page → List ℕ → List PageId → Step (Unit {0})
propagate_split p new_page separator [] = do
  new_root_page ← allocate_page
  new_root ← lift (
      insert_entry (new_internal_page new_root_page.id p.id) 0
        (separator ++ encode_child_id new_page.id))
  write_page new_root
  write_page (new_metadata_page 0 new_root.id)
  set_root_id new_root.id
propagate_split p new_page separator (parent_id ∷ remaining) = do
  parent ← read_page parent_id
  let entry = separator ++ encode_child_id new_page.id
  elim (has_space_for parent (length entry)) [
    | true ↦ do parent' ← insert_separator parent separator entry; write_page parent'
    | false ↦ do
      r ← split_parent parent
      count_split
      elim (is_ge (compare_keys separator r.separator)) [
        | true ↦ do
          new_parent ← insert_separator r.new_page separator entry
          write_page r.old_page
          write_page new_parent
          propagate_split r.old_page new_parent r.separator remaining
        | false ↦ do
          old_parent ← insert_separator r.old_page separator entry
          write_page old_parent
          write_page r.new_page
          propagate_split old_parent r.new_page r.separator remaining
      ]
  ]

-- The part of `Insert` for a leaf that is full.
unfoldable pub split_and_insert : Page → List PageId → ℤ → ℤ → Step (Unit {0})
split_and_insert leaf ancestors key record_id = do
  fresh ← allocate_page
  r ← lift (split_leaf leaf fresh)
  count_split
  update_next_leaf_prev_link r.new_page
  elim (is_ge (compare_keys (encode_int64 key) r.separator)) [
    | true ↦ do
      inserted ← lift (Leaf.insert r.new_page key record_id)
      new_leaf ← lift_result inserted
      write_page r.old_page
      write_page new_leaf
      propagate_split r.old_page new_leaf r.separator ancestors
    | false ↦ do
      inserted ← lift (Leaf.insert r.old_page key record_id)
      old_leaf ← lift_result inserted
      write_page old_leaf
      write_page r.new_page
      propagate_split old_leaf r.new_page r.separator ancestors
  ]

-- `Insert` once the leaf is found. `tree.go`'s `Insert` has no error but a full page.
unfoldable pub insert_at_leaf : Page → List PageId → ℤ → ℤ → Step (Unit {0})
insert_at_leaf leaf ancestors key record_id = do
  inserted ← lift (Leaf.insert leaf key record_id)
  elim inserted [
    | ok leaf' ↦ write_page leaf'
    | err page_full ↦ split_and_insert leaf ancestors key record_id
    | err e ↦ fail e
  ]

unfoldable pub insert : ℕ → ℤ → ℤ → Step (Unit {0})
insert fuel key record_id t =
    (do
      (leaf, ancestors) ← find_leaf_with_path fuel (encode_int64 key)
      elim t.unique [
        | false ↦ insert_at_leaf leaf ancestors key record_id
        | true ↦ do
          (_, found) ← lift (find_key_index leaf (encode_int64 key))
          elim found [
            | true ↦ fail duplicate_key
            | false ↦ insert_at_leaf leaf ancestors key record_id
          ]
      ])
      t
