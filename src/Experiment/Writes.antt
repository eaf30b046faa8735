-- ===== src/Experiment/Writes.antt =====
-- The cost of writes with and without indexes, internal/experiment/writes.go.
use index_lab.Experiment.Run.{Run, return_ok, ◌>>=◌, call, row_text}
use index_lab.Heap
use index_lab.Heap.{Heap, open_heap}
use index_lab.Partial
use index_lab.Partial.{PartialIndex, Status, active, deleted, open_partial}
use index_lab.Prelude.{
  ℕ, zero, suc, ◌+◌, ◌-◌, ◌%◌, ◌^◌, false, none, some, List, [], ◌∷◌, ◌==◌, if◌then◌else◌,
}
use index_lab.Prelude.Int.{ℤ, pos, pos_part}
use index_lab.Stats.{stats}
use index_lab.Storage.{File}
use index_lab.Store.{manager}
use index_lab.Tree.{Tree, open_tree}
use index_lab.Tree.Insert.{insert}

pub data Scenario : Type 0 where
  no_index one_index multiple_indexes partial_index : Scenario

pub record WriteCostResult : Type 0 where
  pub scenario : Scenario
  pub index_writes : ℕ
  pub page_splits : ℕ
  pub page_merges : ℕ
  pub total_pages : ℕ

-- `h.PageWrites()`.
abbrev pub heap_page_writes : Heap → ℕ
heap_page_writes h = (manager h.store).page_writes

abbrev pub sum64 : ℕ → ℕ → ℕ
sum64 a b = (a + b) % 2 ^ 64

-- The loops of the four scenarios, from the index `i` on.
unfoldable pub put_rows : ℕ → ℕ → Heap → Run Heap
put_rows zero i h = return_ok h
put_rows (suc rounds) i h = do (h, _) ← call (Heap.put h (row_text i)); put_rows rounds (i + 1) h

unfoldable pub run_no_index_scenario : File → ℤ → Run WriteCostResult
run_no_index_scenario f n = do
  h ← some (open_heap f none)
  h ← put_rows (pos_part n) 0 h
  return_ok (record {
    scenario = no_index;
    index_writes = 0;
    page_splits = 0;
    page_merges = 0;
    total_pages = heap_page_writes h;
  })

unfoldable pub put_indexed_rows : ℕ → ℕ → ℕ → Heap → Tree → Run (Heap × Tree)
put_indexed_rows fuel zero i h tree = return_ok (h, tree)
put_indexed_rows fuel (suc rounds) i h tree = do
  (h, record_id) ← call (Heap.put h (row_text i))
  (tree, _) ← call (insert fuel (pos i) record_id tree)
  put_indexed_rows fuel rounds (i + 1) h tree

unfoldable pub run_one_index_scenario : ℕ → File → File → ℤ → Run WriteCostResult
run_one_index_scenario fuel heap_file tree_file n = do
  h ← some (open_heap heap_file none)
  tree ← open_tree tree_file none 16 false
  (h, tree) ← put_indexed_rows fuel (pos_part n) 0 h tree
  (_, s) ← call (stats fuel tree)
  return_ok (record {
    scenario = one_index;
    index_writes = s.page_writes;
    page_splits = s.page_splits;
    page_merges = s.page_merges;
    total_pages = sum64 (heap_page_writes h) s.page_writes;
  })

-- The second tree has the key `n - i`, which is positive, since `i` is below `n` in the loop.
unfoldable pub put_twice_indexed_rows :
    ℕ → ℕ → ℕ → ℕ → Heap → Tree → Tree → Run (Heap × (Tree × Tree))
put_twice_indexed_rows fuel n zero i h tree1 tree2 = return_ok (h, (tree1, tree2))
put_twice_indexed_rows fuel n (suc rounds) i h tree1 tree2 = do
  (h, record_id) ← call (Heap.put h (row_text i))
  (tree1, _) ← call (insert fuel (pos i) record_id tree1)
  (tree2, _) ← call (insert fuel (pos (n - i)) record_id tree2)
  put_twice_indexed_rows fuel n rounds (i + 1) h tree1 tree2

unfoldable pub run_multi_index_scenario : ℕ → File → File → File → ℤ → Run WriteCostResult
run_multi_index_scenario fuel heap_file file1 file2 n = do
  h ← some (open_heap heap_file none)
  tree1 ← open_tree file1 none 16 false
  tree2 ← open_tree file2 none 16 false
  (h, (tree1, tree2)) ← put_twice_indexed_rows fuel (pos_part n) (pos_part n) 0 h tree1 tree2
  (_, s1) ← call (stats fuel tree1)
  (_, s2) ← call (stats fuel tree2)
  return_ok (record {
    scenario = multiple_indexes;
    index_writes = sum64 s1.page_writes s2.page_writes;
    page_splits = sum64 s1.page_splits s2.page_splits;
    page_merges = sum64 s1.page_merges s2.page_merges;
    total_pages = sum64 (heap_page_writes h) (sum64 s1.page_writes s2.page_writes);
  })

unfoldable pub status_of_index : ℕ → Status
status_of_index i = if i % 2 == 0 then active else deleted

unfoldable pub put_partly_indexed_rows : ℕ → ℕ → ℕ → Heap → PartialIndex → Run (Heap × PartialIndex)
put_partly_indexed_rows fuel zero i h index = return_ok (h, index)
put_partly_indexed_rows fuel (suc rounds) i h index = do
  (h, record_id) ← call (Heap.put h (row_text i))
  (index, _) ← call (
      Partial.upsert fuel
        (record { key = pos i; record_id = record_id; status = status_of_index i }) index)
  put_partly_indexed_rows fuel rounds (i + 1) h index

unfoldable pub run_partial_index_scenario : ℕ → File → File → ℤ → Run WriteCostResult
run_partial_index_scenario fuel heap_file tree_file n = do
  h ← some (open_heap heap_file none)
  index ← open_partial tree_file
  (h, index) ← put_partly_indexed_rows fuel (pos_part n) 0 h index
  (_, s) ← call (Partial.stats fuel index)
  return_ok (record {
    scenario = partial_index;
    index_writes = s.page_writes;
    page_splits = s.page_splits;
    page_merges = s.page_merges;
    total_pages = sum64 (heap_page_writes h) s.page_writes;
  })

-- The heap file of each scenario, and the files of the indexes.
unfoldable pub run_write_cost_experiments :
    ℕ → (Scenario → File) → File → File × File → File → ℤ → Run (List WriteCostResult)
run_write_cost_experiments fuel heap_file one_file (file1, file2) partial_file n = do
  no_index_result ← run_no_index_scenario (heap_file no_index) n
  one_index_result ← run_one_index_scenario fuel (heap_file one_index) one_file n
  multi_index_result ← run_multi_index_scenario fuel (heap_file multiple_indexes) file1 file2 n
  partial_index_result ← run_partial_index_scenario fuel (heap_file partial_index) partial_file n
  return_ok (no_index_result ∷ one_index_result ∷ multi_index_result ∷ partial_index_result ∷ [])
