-- ===== src/Tests/Drivers.antt =====
-- Labels, rows and a run of the drivers.
use index_lab.Experiment.BufferPool.{sanitize_label}
use index_lab.Experiment.Run.{return_ok, row_text, call, sync_tree, ◌>>=◌}
use index_lab.Experiment.SyncCost.{sync_every, run_sync_scenario}
use index_lab.Experiment.SyncCost.Count.{insert_synced, run_sync_scenario-insert_synced}
use index_lab.Prelude.{[], ◌∷◌, ◌≡◌, refl, none, false}
use index_lab.Prelude.Int.{pos}
use index_lab.Storage.{File}
use index_lab.Tree.{open_tree}

-- "pool (" and a digit.
sanitize_label_example :
    sanitize_label (112 ∷ 111 ∷ 111 ∷ 108 ∷ 32 ∷ 40 ∷ 55 ∷ [])
    ≡ 112 ∷ 111 ∷ 111 ∷ 108 ∷ 45 ∷ 45 ∷ 55 ∷ []
unfolding sanitize_label
sanitize_label_example = refl

row_text_example : row_text 140 ≡ 114 ∷ 111 ∷ 119 ∷ 45 ∷ 49 ∷ 52 ∷ 48 ∷ []
unfolding row_text
row_text_example = refl

abbrev empty_file : File
empty_file = record { content = λ i. 0; size = 0; position = 0; outcomes = [] }

run_sync_scenario-insert_synced_example :
    run_sync_scenario 1 empty_file (sync_every (pos 2)) (pos 0 ∷ pos 1 ∷ pos 2 ∷ []) (pos 2) ≡ (do
      tree ← open_tree empty_file none 16 false
      tree ← insert_synced 1 (pos 0 ∷ pos 1 ∷ pos 2 ∷ []) 0 2 tree
      (_, _) ← call (sync_tree [] tree)
      return_ok (record { strategy = sync_every (pos 2); insert_count = 3; sync_calls = 2 }))
run_sync_scenario-insert_synced_example =
    run_sync_scenario-insert_synced 1 empty_file (sync_every (pos 2)) (pos 0 ∷ pos 1 ∷ pos 2 ∷ []) 1
