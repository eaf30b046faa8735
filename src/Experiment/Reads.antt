-- ===== src/Experiment/Reads.antt =====
-- The pages that three operations read, internal/experiment/reads.go.
use index_lab.Errors.{err, setup_problem}
use index_lab.Experiment.Run.{Run, return_ok, ◌>>=◌, ◌>>◌, call, call_total, row_text}
use index_lab.Heap
use index_lab.Heap.{Heap, open_heap}
use index_lab.Prelude.{
  ℕ, zero, suc, ◌+◌, ◌-◌, ◌/◌, ◌%◌, ◌^◌, Bool, true, false, none, some, List, [], ◌∷◌, ltb, ◌==◌,
  not, ◌&&◌, if◌then◌else◌,
}
use index_lab.Prelude.Int.{ℤ, pos, negsuc, pos_part, neg_part}
use index_lab.Stats.{stats, reset_stats}
use index_lab.Storage.{File}
use index_lab.Store.{manager}
use index_lab.Tree
use index_lab.Tree.{Tree, open_tree}
use index_lab.Tree.Insert.{insert}
use index_lab.Tree.Scan

pub data Operation : Type 0 where
  point_lookup range_scan secondary_index_lookup : Operation

pub record ReadResult : Type 0 where
  pub operation : Operation
  pub index_page_reads : ℕ
  pub heap_page_reads : ℕ
  pub total_pages : ℕ

-- The two stores and `midKeyRecordID`.
pub record Populated : Type 0 where
  pub tree : Tree
  pub rows : Heap
  pub mid_key_record_id : ℤ

-- `a - b`, which does not overflow for the numbers of this file.
abbrev pub minus : ℕ → ℕ → ℤ
minus a b = if ltb a b then negsuc (b - a - 1) else pos (a - b)

-- `n / 2` rounds to zero.
abbrev pub half : ℤ → ℤ
half n = minus (pos_part n / 2) (neg_part n / 2)

abbrev pub equal_ℤ : ℤ → ℤ → Bool
equal_ℤ a b = (pos_part a == pos_part b) && (neg_part a == neg_part b)

-- The loop that fills the tree and the heap, from the index `i` on.
unfoldable pub populate : ℕ → ℕ → ℕ → ℤ → Populated → Run Populated
populate fuel zero i mid s = return_ok s
populate fuel (suc rounds) i mid s = do
  (rows, record_id) ← call (Heap.put s.rows (row_text i))
  (tree, _) ← call (insert fuel (pos i) record_id s.tree)
  populate fuel rounds (i + 1) mid (record {
    tree = tree;
    rows = rows;
    mid_key_record_id = if equal_ℤ (pos i) mid then record_id else s.mid_key_record_id;
  })

-- A check of what the driver found.
unfoldable pub expect : Bool → Run (Unit {0})
expect true = return_ok tt
expect false = some (err setup_problem)

-- `tree.Stats()` and the page reads in it.
unfoldable pub tree_page_reads : ℕ → Tree → Run (Tree × ℕ)
tree_page_reads fuel tree = do (tree, s) ← call (stats fuel tree); return_ok (tree, s.page_reads)

unfoldable pub measure_point_lookup : ℕ → ℤ → Tree → Run (Tree × ReadResult)
measure_point_lookup fuel mid tree = do
  (tree, found) ← call_total (Tree.search fuel mid tree)
  expect found.1
  (tree, reads) ← tree_page_reads fuel tree
  return_ok (
    tree,
    record {
      operation = point_lookup;
      index_page_reads = reads;
      heap_page_reads = 0;
      total_pages = reads;
    },
  )

abbrev pub at_least_zero : ℤ → ℤ
at_least_zero n = pos (pos_part n)

abbrev is_empty {ℓ} : {A : Type ℓ} → List A → Bool
is_empty [] = true
is_empty (x ∷ xs) = false

-- The keys from `mid - 50` to `mid + 50`; the lower bound is not negative.
unfoldable pub measure_range_scan : ℕ → ℕ → ℤ → Tree → Run (Tree × ReadResult)
measure_range_scan fuel leaves mid tree = do
  (tree, scan_results) ← call (
      Scan.scan fuel leaves (at_least_zero (minus (pos_part mid) (neg_part mid + 50)))
        (minus (pos_part mid + 50) (neg_part mid)) tree)
  expect (not (is_empty scan_results))
  (tree, reads) ← tree_page_reads fuel tree
  return_ok (
    tree,
    record {
      operation = range_scan;
      index_page_reads = reads;
      heap_page_reads = 0;
      total_pages = reads;
    },
  )

-- `h.PageReads()`.
abbrev pub page_reads_of : Heap → ℕ
page_reads_of h = (manager h.store).page_reads

unfoldable pub measure_secondary_index_lookup : ℕ → ℤ → Populated → Run (Populated × ReadResult)
measure_secondary_index_lookup fuel mid s = do
  (tree, (got_record_id, found)) ← call_total (Tree.search fuel mid s.tree)
  expect (found && equal_ℤ got_record_id s.mid_key_record_id)
  (tree, reads) ← tree_page_reads fuel tree
  (rows, _) ← call (Heap.get s.rows got_record_id)
  return_ok (
    record s { tree = tree; rows = rows },
    record {
      operation = secondary_index_lookup;
      index_page_reads = reads;
      heap_page_reads = page_reads_of rows;
      total_pages = (reads + page_reads_of rows) % 2 ^ 64;
    },
  )

-- `leaves` is the fuel of the scan.
unfoldable pub run_read_experiments : ℕ → ℕ → File → File → ℤ → Run (List ReadResult)
run_read_experiments fuel leaves tree_file heap_file n = do
  tree ← open_tree tree_file none 16 false
  rows ← some (open_heap heap_file none)
  s ←
      populate fuel (pos_part n) 0 (half n)
        (record { tree = tree; rows = rows; mid_key_record_id = pos 0 })
  (tree, point) ← measure_point_lookup fuel (half n) (reset_stats s.tree)
  (tree, range) ← measure_range_scan fuel leaves (half n) (reset_stats tree)
  (s, secondary) ←
      measure_secondary_index_lookup fuel (half n) (record s { tree = reset_stats tree })
  return_ok (point ∷ range ∷ secondary ∷ [])
