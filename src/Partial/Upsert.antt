-- ===== src/Partial/Upsert.antt =====
-- `Upsert` on a tree of any height.
use index_lab.Errors.{Result, ok, err}
use index_lab.Key.{IsInt64, encode_int64}
use index_lab.Leaf.Correct.{answer}
use index_lab.Leaf.Rows.{Row, lookup_row}
use index_lab.Page.{Page, PageId}
use index_lab.Partial
use index_lab.Partial.{PartialIndex, Status, active, is_active, reconcile, upsert, on_tree}
use index_lab.Prelude.{
  ℕ, ◌<◌, ◌≡◌, ◌≢◌, ◌⊎◌, refl, ap, ◌∙◌, inl, inr, Bool, Bool-cases, arith, true, false, Option,
  none, some, List, Option-cases,
}
use index_lab.Prelude.Int.{ℤ, pos, negsuc, pos_part}
use index_lab.Store.{Store}
use index_lab.Store.Failure.{ErrsOnly}
use index_lab.Tree.{Tree, ◌>>◌, find_leaf_with_path}
use index_lab.Tree.Delete.{delete}
use index_lab.Tree.Insert.{insert}
use index_lab.Tree.Ordered.{IsOrdered, IsAnswer, search-IsFound}
use index_lab.Tree.Shape.{PageSet}
use native.Mathlib.Decide.{ℕ_discrete}

-- Whether the key counts as indexed: it does if a scan of the rows finds it, unless a page on the way
-- cannot be read.
abbrev pub counts_as_indexed : Option ℤ → Result (Page × List PageId) → Bool
counts_as_indexed found (err x) = false
counts_as_indexed none (ok _) = false
counts_as_indexed (some v) (ok _) = true

answer-counts :
    (key : ℤ) (rows : List Row) (r : Result (Page × List PageId)) (a : ℤ × Bool)
    → IsAnswer key rows r a
    → a.1 ≡ counts_as_indexed (lookup_row key rows) r
answer-counts key rows (err x) a e = ap (λ p. p.1) e
answer-counts key rows (ok found) a e = elim (Option-cases (lookup_row key rows)) [
  | inl miss ↦ rw miss (ap (λ p. p.1) e ∙ ap (λ o. (answer o).1) miss)
  | inr (v, hit) ↦ rw hit (ap (λ p. p.1) e ∙ ap (λ o. (answer o).1) hit)
]

status_cases :
    (status : Status)
    → ((status ≡ active) × (is_active status ≡ true))
      ⊎ ((status ≢ active) × (is_active status ≡ false))
status_cases (pos n) = elim (ℕ_discrete n 1) [
  | yes e ↦ inl (ap pos e, ground arith)
  | no other ↦ inr (λ e. other (ap pos_part e), ground arith)
]
status_cases (negsuc n) = inr (λ e. cc, refl)

-- What an upsert does to the tree, by the status of the row and whether its key is indexed.
pub data Upserted (fuel : ℕ) (row : Partial.Row) (indexed : Bool) (t : Tree)
    (o : Option (Tree × Result (Unit {0}))) : Type 0 where
  inserted :
      row.status ≡ active
      → indexed ≡ false
      → o ≡ insert fuel row.key row.record_id t
      → Upserted fuel row indexed t o
  replaced :
      row.status ≡ active
      → indexed ≡ true
      → o ≡ (delete fuel row.key >> insert fuel row.key row.record_id) t
      → Upserted fuel row indexed t o
  removed :
      row.status ≢ active
      → indexed ≡ true
      → o ≡ delete fuel row.key t
      → Upserted fuel row indexed t o
  kept : row.status ≢ active → indexed ≡ false → o ≡ some (t, ok tt) → Upserted fuel row indexed t o

reconcile-Upserted :
    (fuel : ℕ) (row : Partial.Row) (indexed : Bool) (t : Tree)
    → Upserted fuel row indexed t (reconcile fuel row indexed t)
unfolding reconcile
reconcile-Upserted fuel row indexed t = elim (status_cases row.status) [
  | inl (status, e) ↦ elim (Bool-cases indexed) [
    | inl there ↦ replaced status there (rw (reconcile, e, there) refl)
    | inr absent ↦ inserted status absent (rw (reconcile, e, absent) refl)
  ]
  | inr (status, e) ↦ elim (Bool-cases indexed) [
    | inl there ↦ removed status there (rw (reconcile, e, there) refl)
    | inr absent ↦ kept status absent (rw (reconcile, e, absent) refl)
  ]
]

-- `Upsert` of a row with an int64 key, on an index whose tree has any height, with more rounds of
-- fuel than levels of internal pages, first looks the key up, which leaves the rows and does not
-- panic. Then it calls Insert for an active row whose key is not indexed, Delete and after its
-- success Insert for an active row whose key is, Delete for a row that is not active and whose key
-- is indexed, and nothing otherwise, where it succeeds with the tree as it is. It takes a key to be
-- indexed exactly if a scan of the rows finds it, except that it takes it not to be if the lookup
-- ends in an error, which it does only if one of the coming calls of the file fails.
pub upsert-Upserted :
    (n fuel : ℕ) (row : Partial.Row) (index : PartialIndex) (rows : List Row) (ids : PageSet)
    → n < fuel
    → IsOrdered index.tree n rows ids
    → IsInt64 row.key
    → (s : Store) × (r : Result (Page × List PageId)) × (o : Option (Tree × Result (Unit {0})))
      × (find_leaf_with_path fuel (encode_int64 row.key) index.tree
          ≡ some (record index.tree { store = s }, r))
      × ErrsOnly index.tree.store r
      × IsOrdered (record index.tree { store = s }) n rows ids
      × Upserted fuel row
          (counts_as_indexed (lookup_row row.key rows) r)
          (record index.tree { store = s })
          o
      × (upsert fuel row index ≡ on_tree o)
unfolding upsert
upsert-Upserted n fuel row index rows ids h v hk =
    let (s, r, a, run, found, is_answer, errs, after) =
      search-IsFound n fuel row.key index.tree rows ids h v hk in
    let same = answer-counts row.key rows r a is_answer in
    let indexed = counts_as_indexed (lookup_row row.key rows) r in
    let t : Tree = record index.tree { store = s } in
    (
      s,
      r,
      reconcile fuel row indexed t,
      run,
      errs,
      after,
      reconcile-Upserted fuel row indexed t,
      rw (upsert, found) (ap (λ b. on_tree (reconcile fuel row b t)) same),
    )
