-- ===== src/Stats.antt =====
-- The shape of a tree, internal/btree/stats.go.
pub mod Children
pub mod Reads
pub mod Level
pub mod Walk
pub mod Count
use index_lab.Composite.{read_direct}
use index_lab.Node.{child_at, entry_key_len}
use index_lab.Page.{Page, PageId, page_type, leaf_page, num_entries, leftmost_child_page_id}
use index_lab.Prelude.{
  ℕ, zero, suc, ◌+◌, true, false, Option, none, some, List, [], ◌∷◌, ◌++◌, ◌==◌, ◌>>=◌ as ◌>>=?◌,
}
use index_lab.Prelude.Int.{ℤ}
use index_lab.Storage
use index_lab.Store.{manager, with_manager}
use index_lab.Tree.{Tree, Step, pure, ◌>>=◌, lift}

-- The `int` fields count pages in memory and stay below 2 ^ 63.
pub record TreeStats : Type 0 where
  pub height : ℕ
  pub total_pages : ℕ
  pub leaf_pages : ℕ
  pub internal_pages : ℕ
  pub total_entries : ℕ
  pub page_splits : ℕ
  pub page_merges : ℕ
  pub page_reads : ℕ
  pub page_writes : ℕ

-- The loop of `childPageIDs` over the entries from `i` on.
unfoldable pub child_ids_from : Page → ℤ → ℕ → ℕ → Option (List PageId)
child_ids_from p key_len zero i = some []
child_ids_from p key_len (suc rounds) i = child_at p key_len i >>=? λ id.
    child_ids_from p key_len rounds (i + 1) >>=? λ ids. some (id ∷ ids)

unfoldable pub child_page_ids : Page → Option (List PageId)
child_page_ids p = entry_key_len p >>=? λ key_len.
    child_ids_from p key_len (num_entries p) 0 >>=? λ ids. some (leftmost_child_page_id p ∷ ids)

-- `for _, childID := range children`.
unfoldable pub read_children : List PageId → Step (List Page)
read_children [] = pure []
read_children (id ∷ ids) = do
  child ← read_direct id
  children ← read_children ids
  pure (child ∷ children)

abbrev pub count_leaf : TreeStats → Page → TreeStats
count_leaf s p = record s {
  total_pages = s.total_pages + 1;
  leaf_pages = s.leaf_pages + 1;
  total_entries = s.total_entries + num_entries p;
}

abbrev pub count_internal : TreeStats → TreeStats
count_internal s = record s {
  total_pages = s.total_pages + 1;
  internal_pages = s.internal_pages + 1;
}

-- One level: the statistics after it, and the next level.
unfoldable pub walk_level : List Page → TreeStats → Step (TreeStats × List Page)
walk_level [] s = pure (s, [])
walk_level (p ∷ level) s = elim (page_type p == leaf_page) [
  | true ↦ walk_level level (count_leaf s p)
  | false ↦ do
    ids ← lift (child_page_ids p)
    children ← read_children ids
    (s', next) ← walk_level level (count_internal s)
    pure (s', children ++ next)
]

-- The loop over the levels. A damaged file may have a circle, so it has fuel.
unfoldable pub walk : ℕ → List Page → TreeStats → Step TreeStats
walk fuel [] s = pure s
walk zero (p ∷ level) s = lift none
walk (suc fuel) (p ∷ level) s = do
  (s', next) ← walk_level (p ∷ level) (record s { height = s.height + 1 })
  walk fuel next s'

unfoldable pub stats : ℕ → Step TreeStats
stats fuel t =
    (do
      root ← read_direct t.root_id
      walk fuel (root ∷ []) (record {
        height = 0;
        total_pages = 0;
        leaf_pages = 0;
        internal_pages = 0;
        total_entries = 0;
        page_splits = t.page_splits;
        page_merges = t.page_merges;
        page_reads = (manager t.store).page_reads;
        page_writes = (manager t.store).page_writes;
      }))
      t

unfoldable pub reset_stats : Tree → Tree
reset_stats t = record t {
  page_splits = 0;
  page_merges = 0;
  store = with_manager t.store (Storage.reset_stats (manager t.store));
}
