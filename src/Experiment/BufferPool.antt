-- ===== src/Experiment/BufferPool.antt =====
-- The comparison of a tree with and without a pool, internal/experiment/bufferpool.go.
use index_lab.Experiment.Keys.{KeyPattern, Random, generate_keys}
use index_lab.Experiment.Run.{Run, return_ok, ◌>>=◌, call, sync_tree, insert_keys, or_panic}
use index_lab.Page.{PageId}
use index_lab.Prelude.{
  ℕ, Bool, true, false, Option, none, some, List, [], ◌∷◌, length, leb, ◌&&◌, ◌||◌,
}
use index_lab.Prelude.Int.{ℤ}
use index_lab.Stats.{stats}
use index_lab.Storage.{File}
use index_lab.Tree.{open_tree}

-- The two labels, by the capacity that the second names.
pub data Label : Type 0 where
  no_pool : Label
  pool_of : ℤ → Label

pub record BufferPoolResult : Type 0 where
  pub label : Label
  pub pattern : KeyPattern
  pub insert_count : ℕ
  pub page_reads : ℕ
  pub page_writes : ℕ

-- `order` is the order in which `Sync` walks the dirty pages of the pool.
unfoldable pub run_buffer_pool_scenario :
    ℕ → File → List PageId → Label → KeyPattern → List ℤ → Option ℤ → Run BufferPoolResult
run_buffer_pool_scenario fuel f order label pattern keys capacity = do
  tree ← open_tree f capacity 16 false
  tree ← insert_keys fuel keys tree
  (tree, _) ← call (sync_tree order tree)
  (_, s) ← call (stats fuel tree)
  return_ok (record {
    label = label;
    pattern = pattern;
    insert_count = length keys;
    page_reads = s.page_reads;
    page_writes = s.page_writes;
  })

unfoldable pub run_buffer_pool_comparison :
    ℕ → File → File → List PageId → ℕ → Random → KeyPattern → ℤ → ℤ → Run (List BufferPoolResult)
run_buffer_pool_comparison fuel f g order start_millis read pattern n pool_capacity = do
  keys ← or_panic (generate_keys start_millis read pattern n)
  no_pool_result ← run_buffer_pool_scenario fuel f [] no_pool pattern keys none
  pooled_result ←
      run_buffer_pool_scenario fuel g order (pool_of pool_capacity) pattern keys
        (some pool_capacity)
  return_ok (no_pool_result ∷ pooled_result ∷ [])

-- 'a' is 97, 'z' 122, 'A' 65, 'Z' 90, '0' 48 and '9' 57.
abbrev pub is_plain : ℕ → Bool
is_plain r = (leb 97 r && leb r 122) || ((leb 65 r && leb r 90) || (leb 48 r && leb r 57))

-- On the runes of a label. '-' is 45.
unfoldable pub sanitize_label : List ℕ → List ℕ
sanitize_label [] = []
sanitize_label (r ∷ label) = elim (is_plain r) [
  | true ↦ r ∷ sanitize_label label
  | false ↦ 45 ∷ sanitize_label label
]
