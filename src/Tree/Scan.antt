-- ===== src/Tree/Scan.antt =====
-- `Scan` of internal/btree/btree.go.
use index_lab.Errors.{invalid_range}
use index_lab.Key.{encode_int64}
use index_lab.Node.{find_key_index}
use index_lab.Page.{Page, num_entries, next_leaf_page_id}
use index_lab.Prelude.{ℕ, zero, suc, ◌-◌, true, false, none, List, ◌++◌, ◌==◌}
use index_lab.Prelude.Int.{ℤ, ltb_ℤ}
use index_lab.Tree.Rows.{ScanResult, scan_page}
use index_lab.Tree.{Step, pure, fail, ◌>>=◌, lift, read_page, find_leaf_with_path}

-- The outer loop, along the leaf chain. A damaged chain may be a circle, so it has fuel.
unfoldable pub scan_leaves : ℕ → Page → ℕ → ℤ → Step (List ScanResult)
scan_leaves zero leaf i end_key = lift none
scan_leaves (suc fuel) leaf i end_key = do
  (results, done) ← lift (scan_page (num_entries leaf - i) leaf i end_key)
  elim done [
    | true ↦ pure results
    | false ↦ elim (next_leaf_page_id leaf == 0) [
      | true ↦ pure results
      | false ↦ do
        next ← read_page (next_leaf_page_id leaf)
        more ← scan_leaves fuel next 0 end_key
        pure (results ++ more)
    ]
  ]

unfoldable pub scan : ℕ → ℕ → ℤ → ℤ → Step (List ScanResult)
scan fuel leaves start_key end_key = elim (ltb_ℤ end_key start_key) [
  | true ↦ fail invalid_range
  | false ↦ do
    (leaf, _) ← find_leaf_with_path fuel (encode_int64 start_key)
    (i, _) ← lift (find_key_index leaf (encode_int64 start_key))
    scan_leaves leaves leaf i end_key
]
