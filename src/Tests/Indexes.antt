-- ===== src/Tests/Indexes.antt =====
-- Statistics, partial indexes and keys on small values.
use index_lab.Errors.{Result}
use index_lab.Key.{encode_int64}
use index_lab.Leaf.Rows.{lookup_row}
use index_lab.Page.{Page, PageId}
use index_lab.Prelude.{ℕ, zero, suc, ◌≡◌, refl, Option, some, List, [], ◌∷◌, length, arith}
use index_lab.Prelude.Int.{ℤ, pos}
use index_lab.Store.{Store}
use index_lab.Store.Failure.{ErrsOnly}
use index_lab.Tree.{Tree, find_leaf_with_path}
use index_lab.Tree.Ordered.{IsOrdered}
use index_lab.Tests.Forest.{rows, tree, pages, tree-IsOrdered}
use index_lab.Experiment.Keys.{
  Random, Succeeds, StrictlyAscending, generate_keys, uuid7_like, generate_keys-StrictlyAscending,
}
use index_lab.Partial
use index_lab.Partial.{PartialIndex, upsert, on_tree, active}
use index_lab.Partial.Upsert.{Upserted, counts_as_indexed, upsert-Upserted}
use index_lab.Stats.Reads.{Reads}

abbrev index : PartialIndex
index = record { tree = tree }

abbrev row : Partial.Row
row = record { key = pos 5; record_id = pos 51; status = active }

upsert-Upserted_example :
    (s : Store) × (r : Result (Page × List PageId)) × (o : Option (Tree × Result (Unit {0})))
    × (find_leaf_with_path 2 (encode_int64 (pos 5)) tree ≡ some (record tree { store = s }, r))
    × ErrsOnly tree.store r
    × IsOrdered (record tree { store = s }) 1 rows pages
    × Upserted 2 row (counts_as_indexed (lookup_row (pos 5) rows) r) (record tree { store = s }) o
    × (upsert 2 row index ≡ on_tree o)
upsert-Upserted_example =
    upsert-Upserted 1 2 row index rows pages (omega arith) tree-IsOrdered (omega arith)

-- Reads that fill the buffer with the number of the call.
abbrev repeated : ℕ → ℕ → List ℕ
repeated zero b = []
repeated (suc size) b = b ∷ repeated size b

abbrev read : Random
read i size = some (repeated size i)

read-Succeeds : Succeeds read
read-Succeeds i size = (repeated size i, refl)

generate_keys-StrictlyAscending_example :
    (keys : List ℤ) × (generate_keys 1700000000000 read uuid7_like (pos 3) ≡ some keys)
    × (length keys ≡ 3)
    × StrictlyAscending keys
generate_keys-StrictlyAscending_example =
    generate_keys-StrictlyAscending 1700000000000 3 read read-Succeeds (omega arith)
