-- ===== src/Composite.antt =====
-- The tree with keys of two columns, internal/btree/composite.go. It is the tree of btree.go without
-- a pool: it reads through the tree and writes to the page manager.
pub mod Entries
pub mod Correct
use index_lab.Errors.{Result, ok, err, page_full, key_not_found, invalid_range}
use index_lab.Key.{
  composite_entry_size, encode_int64, decode_int64, encode_composite_key, decode_composite_key,
  compare_keys,
}
use index_lab.Node.{find_key_index, split_leaf, entry_prefix, suffix, is_ge, is_gt, is_eq}
use index_lab.Page.{
  Page, PageId, num_entries, get_entry, has_space_for, insert_entry, delete_entry,
  next_leaf_page_id,
}
use index_lab.Prelude.{
  ℕ, zero, suc, ◌+◌, ◌-◌, Bool, true, false, Option, none, some, List, [], ◌∷◌, ◌++◌, length, leb,
  ◌==◌, ◌>>=◌ as ◌>>=?◌,
}
use index_lab.Prelude.Int.{ℤ, pos, ltb_ℤ}
use index_lab.Storage
use index_lab.Store.{manager, with_manager}
use index_lab.Tree.{
  Tree, Step, pure, fail, ◌>>=◌, ◌>>◌, lift, lift_result, allocate_page, find_leaf_with_path,
  open_tree,
}
use index_lab.Tree.Insert.{count_split, update_next_leaf_prev_link, propagate_split}
use index_lab.Tree.Delete.{least_entries, fix_leaf_underflow}

-- `c.tree.pm.WritePage`.
unfoldable pub write_direct : Page → Step (Unit {0})
write_direct pg t =
    let (pm, r) = Storage.write_page (manager t.store) pg in
    some (record t { store = with_manager t.store pm }, r)

-- `c.tree.pm.ReadPage`.
unfoldable pub read_direct : PageId → Step Page
read_direct id t =
    let (pm, r) = Storage.read_page (manager t.store) id in
    some (record t { store = with_manager t.store pm }, r)

-- `OpenComposite`, from the file that `os.OpenFile` gives.
unfoldable pub open_composite : Storage.File → Option (Result Tree)
open_composite f = open_tree f none composite_entry_size false

unfoldable pub insert_composite : Page → ℤ → ℤ → ℤ → Option (Result Page)
insert_composite p column_a column_b record_id =
    let encoded_key = encode_composite_key column_a column_b in
    let entry = encoded_key ++ encode_int64 record_id in
    find_key_index p encoded_key >>=? λ found. elim (has_space_for p (length entry)) [
      | false ↦ some (err page_full)
      | true ↦ insert_entry p found.0 entry >>=? λ p'. some (ok p')
    ]

-- The part of `Insert` for a leaf that is full.
unfoldable pub split_and_insert : Page → List PageId → ℤ → ℤ → ℤ → Step (Unit {0})
split_and_insert leaf ancestors column_a column_b record_id = do
  fresh ← allocate_page
  r ← lift (split_leaf leaf fresh)
  count_split
  update_next_leaf_prev_link r.new_page
  elim (is_ge (compare_keys (encode_composite_key column_a column_b) r.separator)) [
    | true ↦ do
      inserted ← lift (insert_composite r.new_page column_a column_b record_id)
      new_leaf ← lift_result inserted
      write_direct r.old_page
      write_direct new_leaf
      propagate_split r.old_page new_leaf r.separator ancestors
    | false ↦ do
      inserted ← lift (insert_composite r.old_page column_a column_b record_id)
      old_leaf ← lift_result inserted
      write_direct old_leaf
      write_direct r.new_page
      propagate_split old_leaf r.new_page r.separator ancestors
  ]

unfoldable pub insert : ℕ → ℤ → ℤ → ℤ → Step (Unit {0})
insert fuel column_a column_b record_id = do
  (leaf, ancestors) ← find_leaf_with_path fuel (encode_composite_key column_a column_b)
  inserted ← lift (insert_composite leaf column_a column_b record_id)
  elim inserted [
    | ok leaf' ↦ write_direct leaf'
    | err page_full ↦ split_and_insert leaf ancestors column_a column_b record_id
    | err e ↦ fail e
  ]

-- What `Search` does in the leaf.
unfoldable pub search_leaf : Page → ℤ → ℤ → Option (ℤ × Bool)
search_leaf leaf column_a column_b =
    let encoded_key = encode_composite_key column_a column_b in
    find_key_index leaf encoded_key >>=? λ place. elim place.1 [
      | false ↦ some (pos 0, false)
      | true ↦ entry_prefix leaf place.0 (pos 16) >>=? λ key.
          elim (is_eq (compare_keys key encoded_key)) [
            | false ↦ some (pos 0, false)
            | true ↦ get_entry leaf place.0 >>=? λ entry. suffix entry (pos 16) >>=? λ value_bytes.
                decode_int64 value_bytes >>=? λ value. some (value, true)
          ]
    ]

unfoldable pub search : ℕ → ℤ → ℤ → Tree → Option (Tree × (ℤ × Bool))
search fuel column_a column_b t =
    elim (find_leaf_with_path fuel (encode_composite_key column_a column_b) t) [
      | none ↦ none
      | some (t', r) ↦ elim r [
        | err e ↦ some (t', (pos 0, false))
        | ok (leaf, _) ↦ search_leaf leaf column_a column_b >>=? λ found. some (t', found)
      ]
    ]

-- What `Delete` does in the leaf.
unfoldable pub delete_in_leaf : Page → ℤ → ℤ → Option (Result Page)
delete_in_leaf leaf column_a column_b =
    let encoded_key = encode_composite_key column_a column_b in
    find_key_index leaf encoded_key >>=? λ place. elim place.1 [
      | false ↦ some (err key_not_found)
      | true ↦ entry_prefix leaf place.0 (pos 16) >>=? λ key.
          elim (is_eq (compare_keys key encoded_key)) [
            | false ↦ some (err key_not_found)
            | true ↦ delete_entry leaf place.0 >>=? λ leaf'. some (ok leaf')
          ]
    ]

unfoldable pub after_delete : Page → List PageId → Step (Unit {0})
after_delete leaf [] = write_direct leaf
after_delete leaf (parent_id ∷ ancestors) = do
  least ← least_entries
  elim (leb least (num_entries leaf)) [
    | true ↦ write_direct leaf
    | false ↦ fix_leaf_underflow leaf parent_id (parent_id ∷ ancestors)
  ]

unfoldable pub delete : ℕ → ℤ → ℤ → Step (Unit {0})
delete fuel column_a column_b = do
  (leaf, ancestors) ← find_leaf_with_path fuel (encode_composite_key column_a column_b)
  deleted ← lift (delete_in_leaf leaf column_a column_b)
  leaf' ← lift_result deleted
  after_delete leaf' ancestors

pub record CompositeScanResult : Type 0 where
  pub column_a : ℤ
  pub column_b : ℤ
  pub record_id : ℤ

unfoldable pub decode_composite_entry : List ℕ → List ℕ → Option CompositeScanResult
decode_composite_entry key entry = decode_composite_key key >>=? λ columns.
    suffix entry (pos 16) >>=? λ value_bytes. decode_int64 value_bytes >>=? λ record_id.
    some (record { column_a = columns.0; column_b = columns.1; record_id = record_id })

-- The inner loop for the `rounds` entries from `i` on: what it appends, and whether a key beyond the
-- end was met.
unfoldable pub scan_page : ℕ → Page → ℕ → List ℕ → Option (List CompositeScanResult × Bool)
scan_page zero p i end_key = some ([], false)
scan_page (suc rounds) p i end_key = entry_prefix p i (pos 16) >>=? λ key.
    elim (is_gt (compare_keys key end_key)) [
      | true ↦ some ([], true)
      | false ↦ get_entry p i >>=? λ entry. decode_composite_entry key entry >>=? λ r.
          scan_page rounds p (i + 1) end_key >>=? λ rest. some (r ∷ rest.0, rest.1)
    ]

-- The outer loop, along the leaf chain.
unfoldable pub scan_leaves : ℕ → Page → ℕ → List ℕ → Step (List CompositeScanResult)
scan_leaves zero leaf i end_key = lift none
scan_leaves (suc fuel) leaf i end_key = do
  (results, done) ← lift (scan_page (num_entries leaf - i) leaf i end_key)
  elim done [
    | true ↦ pure results
    | false ↦ elim (next_leaf_page_id leaf == 0) [
      | true ↦ pure results
      | false ↦ do
        next ← read_direct (next_leaf_page_id leaf)
        more ← scan_leaves fuel next 0 end_key
        pure (results ++ more)
    ]
  ]

unfoldable pub scan : ℕ → ℕ → ℤ → ℤ → ℤ → Step (List CompositeScanResult)
scan fuel leaves column_a start_b end_b = elim (ltb_ℤ end_b start_b) [
  | true ↦ fail invalid_range
  | false ↦ do
    (leaf, _) ← find_leaf_with_path fuel (encode_composite_key column_a start_b)
    (i, _) ← lift (find_key_index leaf (encode_composite_key column_a start_b))
    scan_leaves leaves leaf i (encode_composite_key column_a end_b)
]
