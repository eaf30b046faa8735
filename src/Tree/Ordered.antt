-- ===== src/Tree/Ordered.antt =====
-- A tree of any height against the ordered list of its rows.
use index_lab.Errors.{Result, ok, err}
use index_lab.Key.{IsInt64, encode_int64}
use index_lab.Leaf.Correct.{IsLeaf, answer, search-lookup_row}
use index_lab.Leaf.Rows.{Row, lookup_row}
use index_lab.Page.{Page, PageId}
use index_lab.Page.Layout.{SameHeader}
use index_lab.Pool.Access.{result_cases}
use index_lab.Prelude.{
  ℕ, ◌<◌, ◌≡◌, inl, inr, refl, sym, ap, ◌∙◌, Bool, false, none, some, List, arith,
}
use index_lab.Prelude.Int.{ℤ, pos}
use index_lab.Storage.ReadWrite.{IsAddressable}
use index_lab.Store
use index_lab.Store.{Store}
use index_lab.Store.View.{IsStore, KeepsAll, IsWritten, write-IsWritten}
use index_lab.Store.Failure.{ErrsOnly, write_err}
use index_lab.Tree.{Tree, write_page, find_leaf_with_path, search}
use index_lab.Tree.Context.{AllIn}
use index_lab.Tree.Descent.{find_leaf_with_path-IsDescentTo}
use index_lab.Tree.Focus.{Focus, IsFocus}
use index_lab.Tree.Shape.{PageSet, IsTree, IsTree-keep, page_type-congr}
use mathlib.Core.Path.{subst}

-- The tree has `n` levels of internal pages, lies on the pages of the set, and holds the rows.
pub record IsOrdered (t : Tree) (n : ℕ) (rows : List Row) (ids : PageSet) : Type 0 where
  pub valid : IsStore t.store
  pub shape : IsTree t.store n t.root_id none none rows ids

-- A call that succeeds leaves the rows.
abbrev pub Leaves : ℕ → List Row → PageSet → Tree → Result (Unit {0}) → Type 0
Leaves n rows ids t (ok _) = IsOrdered t n rows ids
Leaves n rows ids t (err x) = IsStore t.store

-- What `Search` answers, given how the descent ended.
abbrev pub IsAnswer : ℤ → List Row → Result (Page × List PageId) → ℤ × Bool → Type 0
IsAnswer key rows (ok _) a = a ≡ answer (lookup_row key rows)
IsAnswer key rows (err x) a = a ≡ (pos 0, false)

-- Reads keep the tree.
pub read-IsOrdered :
    (t : Tree) (s : Store) (n : ℕ) (rows : List Row) (ids : PageSet)
    → IsStore s
    → KeepsAll t.store s
    → IsOrdered t n rows ids
    → IsOrdered (record t { store = s }) n rows ids
read-IsOrdered t s n rows ids valid keeps v = record {
  valid = valid;
  shape =
      IsTree-keep n t.store s ids (λ id i b o. keeps id i b) t.root_id none none rows ids
        (λ id k. k) v.shape;
}

-- Writing a changed leaf.
module _ (t : Tree) (s : Store) (n : ℕ) (rows : List Row) (ids : PageSet) (key : ℤ) (leaf : Page)
    (valid : IsStore s) (f : Focus s n t.root_id none none rows ids key leaf) (q : Page)
    (inner : List Row) (l : IsLeaf q inner) (range : AllIn f.inner_lo f.inner_hi inner)
    (same : SameHeader leaf q) where
  abbrev read : Tree
  read = record t { store = s }

  pub write_page-Leaves :
      (t' : Tree) × (w : Result (Unit {0})) × (write_page q read ≡ some (t', w))
      × Leaves n (f.plug inner) ids t' w
      × ErrsOnly s w
  unfolding write_page
  write_page-Leaves =
      let wrote = Store.write s q in
      let after : Tree = record t { store = wrote.0 } in
      let place : IsAddressable q.id = subst IsAddressable (sym same.id) f.place in
      let (valid', others, written) = write-IsWritten s q valid place in
      let kind = page_type-congr leaf q same.page_type ∙ f.node.kind in
      (
        after,
        wrote.1,
        refl,
        elim (result_cases wrote.1) [
          | inr (x, e) ↦ subst (Leaves n (f.plug inner) ids after) (sym e) valid'
          | inl (u, e) ↦ subst (Leaves n (f.plug inner) ids after) (sym e) (record {
            valid = valid';
            shape =
                f.refill wrote.0 q inner same.id
                  (λ id i b other. others id i b (λ k. other (sym same.id ∙ k)))
                  (subst (IsWritten wrote.0 q) e written)
                  (record { kind = kind; stored = l; range = range });
          })
        ],
        elim (result_cases wrote.1) [
          | inr (x, e) ↦ subst (ErrsOnly s) (sym e) (write_err s q x valid place e)
          | inl (u, e) ↦ subst (ErrsOnly s) (sym e) tt
        ],
      )

module _ (n fuel : ℕ) (key : ℤ) (t : Tree) (rows : List Row) (ids : PageSet) (enough : n < fuel)
    (v : IsOrdered t n rows ids) (hk : IsInt64 key) where
  -- `Search` for an int64 key in a tree of any height, with more rounds of fuel than levels of
  -- internal pages, does not panic. It answers what a scan of the rows finds; only if the descent
  -- ends in an error, which it does only if one of the coming calls of the file fails, it answers
  -- that the key is not there. The tree stays.
  pub search-IsFound :
      (s : Store) × (r : Result (Page × List PageId)) × (a : ℤ × Bool) × (find_leaf_with_path fuel
          (encode_int64 key)
          t
        ≡ some (record t { store = s }, r))
      × (search fuel key t ≡ some (record t { store = s }, a))
      × IsAnswer key rows r a
      × ErrsOnly t.store r
      × IsOrdered (record t { store = s }) n rows ids
  unfolding search
  search-IsFound =
      let (s, r, run, valid, keeps, focus, _, errs, _) =
        find_leaf_with_path-IsDescentTo n fuel t key none none rows ids enough v.valid v.shape
          (tt, tt) hk in
      let kept = read-IsOrdered t s n rows ids valid keeps v in
      elim (result_cases r) [
        | inr (x, e) ↦ (
          s,
          r,
          (pos 0, false),
          run,
          ground (arith, run, e),
          subst (λ r'. IsAnswer key rows r' (pos 0, false)) (sym e) refl,
          errs,
          kept,
        )
        | inl ((leaf, ancestors), e) ↦
            let (f, _) : IsFocus s n t.root_id none none rows ids key n (ok (leaf, ancestors)) =
              subst (IsFocus s n t.root_id none none rows ids key n) e focus in
            let same = ap (lookup_row key) f.whole ∙ f.context.lookup f.inner in
            let found = search-lookup_row leaf f.inner key f.node.stored hk in
            (
              s,
              r,
              answer (lookup_row key f.inner),
              run,
              ground (arith, run, e, found),
              subst (λ r'. IsAnswer key rows r' (answer (lookup_row key f.inner))) (sym e)
                  (ap answer (sym same)),
              errs,
              kept,
            )
      ]
