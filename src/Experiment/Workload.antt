-- ===== src/Experiment/Workload.antt =====
-- The insert workloads of internal/experiment/workload.go.
use index_lab.Experiment.Keys.{
  KeyPattern, sequential, random, uuid4_like, uuid7_like, Random, generate_keys,
}
use index_lab.Experiment.Run.{Run, return_ok, ◌>>=◌, call, insert_keys, or_panic}
use index_lab.Prelude.{ℕ, false, none, List, [], ◌∷◌, length}
use index_lab.Prelude.Int.{ℤ}
use index_lab.Stats.{stats}
use index_lab.Storage.{File}
use index_lab.Tree.{open_tree}

pub record WorkloadResult : Type 0 where
  pub pattern : KeyPattern
  pub insert_count : ℕ
  pub page_splits : ℕ
  pub page_writes : ℕ
  pub final_height : ℕ
  pub final_page_count : ℕ

-- `RunWorkload`, with the clock and the random bytes of its keys. `fuel` is for the tree.
unfoldable pub run_workload : ℕ → File → ℕ → Random → KeyPattern → ℤ → Run WorkloadResult
run_workload fuel f start_millis read pattern n = do
  tree ← open_tree f none 16 false
  keys ← or_panic (generate_keys start_millis read pattern n)
  tree ← insert_keys fuel keys tree
  (_, s) ← call (stats fuel tree)
  return_ok (record {
    pattern = pattern;
    insert_count = length keys;
    page_splits = s.page_splits;
    page_writes = s.page_writes;
    final_height = s.height;
    final_page_count = s.total_pages;
  })

-- The loop of `RunAllWorkloads`. The file, the clock and the random bytes are those of the pattern.
unfoldable pub run_workloads :
    ℕ
    → (KeyPattern → File)
    → (KeyPattern → ℕ)
    → (KeyPattern → Random)
    → List KeyPattern
    → ℤ
    → Run (List WorkloadResult)
run_workloads fuel file clock read [] n = return_ok []
run_workloads fuel file clock read (p ∷ patterns) n = do
  result ← run_workload fuel (file p) (clock p) (read p) p n
  results ← run_workloads fuel file clock read patterns n
  return_ok (result ∷ results)

unfoldable pub run_all_workloads :
    ℕ
    → (KeyPattern → File)
    → (KeyPattern → ℕ)
    → (KeyPattern → Random)
    → ℤ
    → Run (List WorkloadResult)
run_all_workloads fuel file clock read n =
    run_workloads fuel file clock read (sequential ∷ random ∷ uuid4_like ∷ uuid7_like ∷ []) n
