-- ===== src/Stats/Count.antt =====
-- `Stats` on a tree of any height without a pool: its counts are those of the tree.
use index_lab.Leaf.Rows.{Row}
use index_lab.Page.{Page}
use index_lab.Prelude.{ℕ, ◌+◌, ◌≡◌, List, [], ◌∷◌, length}
use index_lab.Stats.{TreeStats}
use index_lab.Storage.{PageManager}
use index_lab.Store.{Store}
use index_lab.Tree.{Tree}
use index_lab.Stats.Reads.{Reads}
use index_lab.Stats.Level.{AreLevels}

-- What `Stats` promises of a tree with `n` levels of internal pages.
pub record IsStats (t : Tree) (pm : PageManager) (n : ℕ) (rows : List Row) (s : Store)
    (st : TreeStats) : Type 0 where
  pub root : Page
  pub own : root.id ≡ t.root_id
  pub levels : AreLevels s n (root ∷ []) rows st.leaf_pages st.internal_pages
  pub height : st.height ≡ n + 1
  pub total_pages : st.total_pages ≡ st.leaf_pages + st.internal_pages
  pub total_entries : st.total_entries ≡ length rows
  pub page_splits : st.page_splits ≡ t.page_splits
  pub page_merges : st.page_merges ≡ t.page_merges
  pub page_writes : st.page_writes ≡ pm.page_writes

-- The walk over the levels from one on.
record Walked (n : ℕ) (ps : List Page) (rows : List Row) (before : TreeStats) (s : Store)
    (after : TreeStats) : Type 0 where
  leaves : ℕ
  inner : ℕ
  levels : AreLevels s n ps rows leaves inner
  leaf_pages : after.leaf_pages ≡ before.leaf_pages + leaves
  internal_pages : after.internal_pages ≡ before.internal_pages + inner
  height : after.height ≡ before.height + n + 1
  total_pages :
      after.total_pages + before.leaf_pages + before.internal_pages
      ≡ before.total_pages + after.leaf_pages + after.internal_pages
  total_entries : after.total_entries ≡ before.total_entries + length rows
  page_splits : after.page_splits ≡ before.page_splits
  page_merges : after.page_merges ≡ before.page_merges
  page_writes : after.page_writes ≡ before.page_writes
