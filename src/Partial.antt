-- ===== src/Partial.antt =====
-- The partial index of internal/partial/partial.go: a tree that has the rows of one status.
pub mod Upsert
use index_lab.Errors.{Result, ok, err}
use index_lab.Prelude.{ℕ, Bool, true, false, Option, none, some, List, ◌==◌}
use index_lab.Prelude.Int.{ℤ, pos, negsuc}
use index_lab.Stats
use index_lab.Stats.{TreeStats}
use index_lab.Storage.{File}
use index_lab.Tree
use index_lab.Tree.{Tree, Step, pure, ◌>>=◌, ◌>>◌, open_tree}
use index_lab.Tree.Insert
use index_lab.Tree.Delete
use index_lab.Tree.Scan
use index_lab.Tree.Rows.{ScanResult}

-- `Status` is an `int` with two named values.
abbrev pub Status : Type 0
Status = ℤ

abbrev pub deleted : Status
deleted = pos 0

abbrev pub active : Status
active = pos 1

-- `row.Status == Active`.
abbrev pub is_active : Status → Bool
is_active (pos n) = n == 1
is_active (negsuc n) = false

pub record Row : Type 0 where
  pub key : ℤ
  pub record_id : ℤ
  pub status : Status

pub record PartialIndex : Type 0 where
  pub tree : Tree

-- A result of the tree, on the index.
abbrev pub on_tree {ℓ} : {A : Type ℓ} → Option (Tree × A) → Option (PartialIndex × A)
on_tree none = none
on_tree (some (t, a)) = some (record { tree = t }, a)

unfoldable pub open_partial : File → Option (Result PartialIndex)
open_partial f = elim (open_tree f none 16 false) [
  | none ↦ none
  | some r ↦ some (elim r [ err e ↦ err e | ok t ↦ ok (record { tree = t }) ])
]

unfoldable pub search : ℕ → ℤ → PartialIndex → Option (PartialIndex × (ℤ × Bool))
search fuel key index = on_tree (Tree.search fuel key index.tree)

-- The four cases of `Upsert`.
unfoldable pub reconcile : ℕ → Row → Bool → Step (Unit {0})
reconcile fuel row indexed = elim (is_active row.status) [
  | true ↦ elim indexed [
    | false ↦ Insert.insert fuel row.key row.record_id
    | true ↦ do Delete.delete fuel row.key; Insert.insert fuel row.key row.record_id
  ]
  | false ↦ elim indexed [ true ↦ Delete.delete fuel row.key | false ↦ pure tt ]
]

unfoldable pub upsert : ℕ → Row → PartialIndex → Option (PartialIndex × Result (Unit {0}))
upsert fuel row index = elim (Tree.search fuel row.key index.tree) [
  | none ↦ none
  | some (t, found) ↦ on_tree (reconcile fuel row found.1 t)
]

unfoldable pub scan :
    ℕ → ℕ → ℤ → ℤ → PartialIndex → Option (PartialIndex × Result (List ScanResult))
scan fuel leaves start_key end_key index =
    on_tree (Scan.scan fuel leaves start_key end_key index.tree)

unfoldable pub stats : ℕ → PartialIndex → Option (PartialIndex × Result TreeStats)
stats fuel index = on_tree (Stats.stats fuel index.tree)

unfoldable pub reset_stats : PartialIndex → PartialIndex
reset_stats index = record { tree = Stats.reset_stats index.tree }
