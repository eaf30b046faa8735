-- ===== src/Tree/Change.antt =====
-- `Insert` and `Delete` in a tree of any height, where the leaf takes the change without a split or
-- a repair.
use index_lab.Errors.{Error, Result, ok, err}
use index_lab.Key.{IsInt64, encode_int64}
use index_lab.Leaf.Correct.{IsLeaf, insert-IsLeaf, delete-IsLeaf, find_none}
use index_lab.Leaf.Rows.{Row, lookup_row, insert_row, remove_row, length-encode_rows}
use index_lab.Page.{Page, PageId, max_entries, min_entries, num_entries}
use index_lab.Pool.Access.{result_cases}
use index_lab.Prelude.{
  ℕ, ◌≤◌, ◌<◌, ◌≡◌, ◌⊎◌, inl, inr, refl, sym, ap, ◌∙◌, false, none, some, List, length, arith,
  Bool-cases, List-cases,
}
use index_lab.Prelude.Int.{ℤ}
use index_lab.Store.{Store}
use index_lab.Store.Failure.{CanFail, ErrsOnly, ErrsOnly-after}
use index_lab.Tree.{Tree, Step, write_page, find_leaf_with_path}
use index_lab.Tree.Context.{insert_row-AllIn, remove_row-AllIn}
use index_lab.Tree.Delete.{delete, after_delete, least_entries}
use index_lab.Tree.Descent.{find_leaf_with_path-IsDescentTo}
use index_lab.Tree.Focus.{IsFocus}
use index_lab.Tree.Insert.{insert, insert_at_leaf}
use index_lab.Tree.Ordered.{IsOrdered, Leaves, read-IsOrdered, write_page-Leaves}
use index_lab.Tree.Shape.{PageSet}
use mathlib.Core.Path.{subst}
use native.Mathlib.Decide.{dec_lt}

-- How a call that changes the rows ends: with the error of a page on the way, because a call of the
-- file fails, and the tree as before; at a leaf for which `blocked` holds, whose change needs more
-- than the leaf; or as the write of the leaf of the key does, which errs only because a call of the
-- file fails.
pub data Outcome (blocked : Page → List Row → Type 0) (t : Tree) (n fuel : ℕ) (key : ℤ)
    (rows rows' : List Row) (ids : PageSet) (call : Step (Unit {0})) : Type 0 where
  unread :
      (s : Store) (x : Error)
      → find_leaf_with_path fuel (encode_int64 key) t ≡ some (record t { store = s }, err x)
      → call t ≡ some (record t { store = s }, err x)
      → CanFail t.store
      → IsOrdered (record t { store = s }) n rows ids
      → Outcome blocked t n fuel key rows rows' ids call
  needs_more :
      (s : Store) (leaf : Page) (ancestors : List PageId) (inner : List Row)
      → find_leaf_with_path fuel (encode_int64 key) t
        ≡ some (record t { store = s }, ok (leaf, ancestors))
      → IsLeaf leaf inner
      → blocked leaf inner
      → Outcome blocked t n fuel key rows rows' ids call
  written :
      (s : Store) (leaf : Page) (ancestors : List PageId) (q : Page) (t' : Tree)
      (r : Result (Unit {0}))
      → find_leaf_with_path fuel (encode_int64 key) t
        ≡ some (record t { store = s }, ok (leaf, ancestors))
      → q.id ≡ leaf.id
      → call t ≡ write_page q (record t { store = s })
      → call t ≡ some (t', r)
      → ErrsOnly t.store r
      → Leaves n rows' ids t' r
      → Outcome blocked t n fuel key rows rows' ids call

-- The leaf has no room for one more row.
abbrev pub IsFull : Page → List Row → Type 0
IsFull leaf inner = 203 ≤ length inner

-- Without the row of the key the leaf has fewer rows than a page must.
abbrev pub IsScarce : ℤ → Page → List Row → Type 0
IsScarce key leaf inner = length (remove_row key inner) < 101

min_entries_16 : min_entries 16 ≡ some 101
unfolding min_entries max_entries
min_entries_16 = refl

module _ (n fuel : ℕ) (key : ℤ) (t : Tree) (rows : List Row) (ids : PageSet) (enough : n < fuel)
    (v : IsOrdered t n rows ids) (hk : IsInt64 key) where
  -- `Insert` of an int64 key and record ID into a tree of any height that allows duplicates, or
  -- that does not have the key, with more rounds of fuel than levels of internal pages, does not
  -- panic unless the leaf that the key belongs to is full. It answers the error of the descent, the
  -- tree as before; or it does what writing a page under the ID of that leaf does, and if that
  -- succeeds the tree holds its rows with the new one in its place. In both cases it errs only if
  -- one of the coming calls of the file fails. For a leaf of 203 rows or more nothing is said.
  pub insert-Outcome :
      (value : ℤ)
      → IsInt64 value
      → (t.unique ≡ false) ⊎ (lookup_row key rows ≡ none)
      → Outcome IsFull t n fuel key rows (insert_row key value rows) ids (insert fuel key value)
  unfolding insert insert_at_leaf
  insert-Outcome value hv fresh =
      let (s, r, run, valid, keeps, focus, _, errs, consumes) =
        find_leaf_with_path-IsDescentTo n fuel t key none none rows ids enough v.valid v.shape
          (tt, tt) hk in
      elim (result_cases r) [
        | inr (x, e) ↦
            unread s x (run ∙ ap (λ r'. some (record t { store = s }, r')) e)
              (ground (arith, run, e)) (subst (ErrsOnly t.store) e errs)
              (read-IsOrdered t s n rows ids valid keeps v)
        | inl ((leaf, ancestors), e) ↦
            let there_run = run ∙ ap (λ r'. some (record t { store = s }, r')) e in
            let (f, _) : IsFocus s n t.root_id none none rows ids key n (ok (leaf, ancestors)) =
              subst (IsFocus s n t.root_id none none rows ids key n) e focus in
            elim (dec_lt (length f.inner) 203) [
              | no full ↦ needs_more s leaf ancestors f.inner there_run f.node.stored (omega arith)
              | yes room ↦
                  let (q, inserted, l, same) =
                    insert-IsLeaf leaf f.inner key f.node.stored hk value hv room in
                  let range =
                    insert_row-AllIn f.inner_lo f.inner_hi key value f.inner f.range f.node.range in
                  let (t', w, write, leaves, wrote) =
                    write_page-Leaves t s n rows ids key leaf valid f q
                      (insert_row key value f.inner) l range same in
                  let whole = ap (insert_row key value) f.whole ∙ f.context.insert value f.inner in
                  let left = subst (λ m. Leaves n m ids t' w) (sym whole) leaves in
                  let wrote_only = ErrsOnly-after t.store s w consumes wrote in
                  let done : insert fuel key value t ≡ write_page q (record t { store = s })
                      → Outcome IsFull t n fuel key rows (insert_row key value rows) ids
                          (insert fuel key value) =
                    λ how.
                      written s leaf ancestors q t' w there_run same.id how (how ∙ write) wrote_only
                        left in
                  elim fresh [
                    | inl plain ↦ done (ground (arith, run, e, plain, inserted))
                    | inr absent ↦
                        let missing =
                          sym (ap (lookup_row key) f.whole ∙ f.context.lookup f.inner) ∙ absent in
                        let miss = find_none leaf f.inner key f.node.stored hk missing in
                        elim (Bool-cases t.unique) [
                          | inl u ↦ done (ground (arith, run, e, u, miss, inserted))
                          | inr u ↦ done (ground (arith, run, e, u, inserted))
                        ]
                  ]
            ]
      ]

  -- `Delete` of an int64 key that a row of a tree of any height and of entries of 16 bytes has,
  -- with more rounds of fuel than levels of internal pages, does not panic unless it leaves fewer
  -- than 101 rows in the leaf. It answers the error of the descent, the tree as before; or it does
  -- what writing a page under the ID of that leaf does, and if that succeeds the tree holds its
  -- rows without the first one of the key. In both cases it errs only if one of the coming calls of
  -- the file fails. For a leaf that is left with fewer than 101 rows nothing is said.
  pub delete-Outcome :
      (value : ℤ)
      → t.entry_size ≡ 16
      → lookup_row key rows ≡ some value
      → Outcome (IsScarce key) t n fuel key rows (remove_row key rows) ids (delete fuel key)
  unfolding delete after_delete least_entries
  delete-Outcome value entry_size hit =
      let (s, r, run, valid, keeps, focus, _, errs, consumes) =
        find_leaf_with_path-IsDescentTo n fuel t key none none rows ids enough v.valid v.shape
          (tt, tt) hk in
      elim (result_cases r) [
        | inr (x, e) ↦
            unread s x (run ∙ ap (λ r'. some (record t { store = s }, r')) e)
              (ground (arith, run, e)) (subst (ErrsOnly t.store) e errs)
              (read-IsOrdered t s n rows ids valid keeps v)
        | inl ((leaf, ancestors), e) ↦
            let there_run = run ∙ ap (λ r'. some (record t { store = s }, r')) e in
            let (f, _) : IsFocus s n t.root_id none none rows ids key n (ok (leaf, ancestors)) =
              subst (IsFocus s n t.root_id none none rows ids key n) e focus in
            let there = sym (ap (lookup_row key) f.whole ∙ f.context.lookup f.inner) ∙ hit in
            let (q, deleted, l, same) =
              delete-IsLeaf leaf f.inner key f.node.stored hk value there in
            let range = remove_row-AllIn f.inner_lo f.inner_hi key f.inner f.node.range in
            let (t', w, write, leaves, wrote) =
              write_page-Leaves t s n rows ids key leaf valid f q (remove_row key f.inner) l range
                same in
            let whole = ap (remove_row key) f.whole ∙ f.context.remove f.inner in
            let left = subst (λ m. Leaves n m ids t' w) (sym whole) leaves in
            let least : min_entries t.entry_size ≡ some 101 =
              ap min_entries entry_size ∙ min_entries_16 in
            let count : num_entries q ≡ length (remove_row key f.inner) =
              l.stored.count ∙ length-encode_rows (remove_row key f.inner) in
            let wrote_only = ErrsOnly-after t.store s w consumes wrote in
            let done : delete fuel key t ≡ write_page q (record t { store = s })
                → Outcome (IsScarce key) t n fuel key rows (remove_row key rows) ids
                    (delete fuel key) =
              λ how.
                written s leaf ancestors q t' w there_run same.id how (how ∙ write) wrote_only
                  left in
            elim (dec_lt (length (remove_row key f.inner)) 101) [
              | yes scarce ↦ needs_more s leaf ancestors f.inner there_run f.node.stored scarce
              | no enough_left ↦ elim (List-cases ancestors) [
                | inl none_there ↦ done (ground (arith, run, e, none_there, deleted))
                | inr (a, others, some_there) ↦
                    done (ground (arith, run, e, some_there, deleted, least, count))
              ]
            ]
      ]
