-- ===== src/Experiment/SyncCost.antt =====
-- The cost of syncing, internal/experiment/synccost.go.
pub mod Count
use index_lab.Experiment.Keys.{sequential, Random, generate_keys}
use index_lab.Experiment.Run.{Run, return_ok, ◌>>=◌, call, sync_tree, or_panic}
use index_lab.Prelude.{
  ℕ, zero, ◌+◌, ◌%◌, ◌^◌, Bool, true, false, Option, none, some, List, [], ◌∷◌, length, ◌==◌,
}
use index_lab.Prelude.Int.{ℤ, pos, pos_part, neg_part}
use index_lab.Storage.{File}
use index_lab.Tree.{Tree, open_tree}
use index_lab.Tree.Insert.{insert}

pub data Strategy : Type 0 where
  sync_every_write : Strategy
  sync_every : ℤ → Strategy
  sync_once_at_end : Strategy

pub record SyncCostResult : Type 0 where
  pub strategy : Strategy
  pub insert_count : ℕ
  pub sync_calls : ℕ

-- `(i+1)%syncInterval == 0`. It panics on an interval of 0; a negative one divides like its magnitude.
abbrev pub is_due : ℕ → ℤ → Option Bool
is_due i (pos zero) = none
is_due i sync_interval = some ((i + 1) % (pos_part sync_interval + neg_part sync_interval) == 0)

-- The body of the test, from the tree and the count of calls before it.
unfoldable pub sync_when : Bool → Tree × ℕ → Run (Tree × ℕ)
sync_when true (tree, sync_calls) = do
  (tree, _) ← call (sync_tree [] tree)
  return_ok (tree, (sync_calls + 1) % 2 ^ 64)
sync_when false state = return_ok state

-- `if (i+1)%syncInterval == 0 { … }`.
unfoldable pub sync_if_due : ℕ → ℤ → Tree × ℕ → Run (Tree × ℕ)
sync_if_due i sync_interval state = do due ← or_panic (is_due i sync_interval); sync_when due state

-- The loop from the index `i` on. The tree has no pool, so that `Sync` walks no pages of one.
unfoldable pub insert_and_sync : ℕ → List ℤ → ℕ → ℤ → Tree × ℕ → Run (Tree × ℕ)
insert_and_sync fuel [] i sync_interval state = return_ok state
insert_and_sync fuel (key ∷ keys) i sync_interval (tree, sync_calls) = do
  (tree, _) ← call (insert fuel key key tree)
  state ← sync_if_due i sync_interval (tree, sync_calls)
  insert_and_sync fuel keys (i + 1) sync_interval state

unfoldable pub run_sync_scenario : ℕ → File → Strategy → List ℤ → ℤ → Run SyncCostResult
run_sync_scenario fuel f label keys sync_interval = do
  tree ← open_tree f none 16 false
  (tree, sync_calls) ← insert_and_sync fuel keys 0 sync_interval (tree, 0)
  (tree, _) ← call (sync_tree [] tree)
  return_ok (record {
    strategy = label;
    insert_count = length keys;
    sync_calls = (sync_calls + 1) % 2 ^ 64;
  })

-- Sequential keys need neither the clock nor random bytes.
unfoldable pub run_sync_cost_experiments :
    ℕ → (Strategy → File) → Random → ℤ → ℤ → Run (List SyncCostResult)
run_sync_cost_experiments fuel file read n sync_interval = do
  keys ← or_panic (generate_keys 0 read sequential n)
  every_write ← run_sync_scenario fuel (file sync_every_write) sync_every_write keys (pos 1)
  every_interval ←
      run_sync_scenario fuel (file (sync_every sync_interval)) (sync_every sync_interval) keys
        sync_interval
  once_at_end ←
      run_sync_scenario fuel (file sync_once_at_end) sync_once_at_end keys (pos (length keys + 1))
  return_ok (every_write ∷ every_interval ∷ once_at_end ∷ [])
