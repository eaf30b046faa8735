-- ===== src/Tree/Refuse.antt =====
-- The errors of `Insert` into a unique tree and of `Delete`.
use index_lab.Errors.{Error, Result, ok, err, duplicate_key, key_not_found}
use index_lab.Key.{IsInt64, encode_int64}
use index_lab.Leaf.Correct.{find_some, delete-key_not_found}
use index_lab.Leaf.Rows.{Row, lookup_row}
use index_lab.Page.{Page, PageId}
use index_lab.Pool.Access.{result_cases}
use index_lab.Prelude.{ℕ, ◌<◌, ◌≡◌, inl, inr, refl, sym, ap, ◌∙◌, true, none, some, List, arith}
use index_lab.Prelude.Int.{ℤ}
use index_lab.Store.{Store}
use index_lab.Tree.{Tree, Step, find_leaf_with_path}
use index_lab.Tree.Delete.{delete}
use index_lab.Tree.Descent.{find_leaf_with_path-IsDescentTo}
use index_lab.Tree.Focus.{Focus, IsFocus}
use index_lab.Tree.Insert.{insert}
use index_lab.Tree.Ordered.{IsOrdered, read-IsOrdered}
use index_lab.Tree.Shape.{PageSet}
use mathlib.Core.Path.{subst}

-- The answer of a call that refuses, given how the descent ended.
abbrev pub IsRefusal : Error → Result (Page × List PageId) → Result (Unit {0}) → Type 0
IsRefusal reason (ok _) r = r ≡ err reason
IsRefusal reason (err x) r = r ≡ err x

-- The call answers the reason, or the error of a page on the way, and leaves the tree.
abbrev pub Refuses : Error → Tree → ℕ → ℕ → ℤ → List Row → PageSet → Step (Unit {0}) → Type 0
Refuses reason t n fuel key rows ids call =
    (s : Store) × (r : Result (Page × List PageId)) × (w : Result (Unit {0})) × (find_leaf_with_path
        fuel (encode_int64 key) t
      ≡ some (record t { store = s }, r))
    × (call t ≡ some (record t { store = s }, w))
    × IsRefusal reason r w
    × IsOrdered (record t { store = s }) n rows ids

module _ (n fuel : ℕ) (key : ℤ) (t : Tree) (rows : List Row) (ids : PageSet) (enough : n < fuel)
    (v : IsOrdered t n rows ids) (hk : IsInt64 key) where
  -- A call refuses if it does so at the leaf that the key belongs to.
  Refuses-at_leaf :
      (reason : Error) (call : Step (Unit {0}))
      → ((s : Store) (x : Error)
          → find_leaf_with_path fuel (encode_int64 key) t ≡ some (record t { store = s }, err x)
          → call t ≡ some (record t { store = s }, err x))
      → ((s : Store) (leaf : Page) (ancestors : List PageId)
          → find_leaf_with_path fuel (encode_int64 key) t
            ≡ some (record t { store = s }, ok (leaf, ancestors))
          → (f : Focus s n t.root_id none none rows ids key leaf)
          → lookup_row key f.inner ≡ lookup_row key rows
          → call t ≡ some (record t { store = s }, err reason))
      → Refuses reason t n fuel key rows ids call
  Refuses-at_leaf reason call failed refused =
      let (s, r, run, valid, keeps, focus, _, _, _) =
        find_leaf_with_path-IsDescentTo n fuel t key none none rows ids enough v.valid v.shape
          (tt, tt) hk in
      let kept = read-IsOrdered t s n rows ids valid keeps v in
      let as_run : (r' : Result (Page × List PageId))
          → r ≡ r'
          → find_leaf_with_path fuel (encode_int64 key) t ≡ some (record t { store = s }, r') =
        λ r' e. run ∙ ap (λ q. some (record t { store = s }, q)) e in
      elim (result_cases r) [
        | inr (x, e) ↦
            (s, err x, err x, as_run (err x) e, failed s x (as_run (err x) e), refl, kept)
        | inl ((leaf, ancestors), e) ↦
            let (f, _) : IsFocus s n t.root_id none none rows ids key n (ok (leaf, ancestors)) =
              subst (IsFocus s n t.root_id none none rows ids key n) e focus in
            let now = as_run (ok (leaf, ancestors)) e in
            let same = sym (ap (lookup_row key) f.whole ∙ f.context.lookup f.inner) in
            (
              s,
              ok (leaf, ancestors),
              err reason,
              now,
              refused s leaf ancestors now f same,
              refl,
              kept,
            )
      ]

  -- `Insert` of an int64 key that a row has into a unique tree of any height, with more rounds of
  -- fuel than levels of internal pages, does not panic. It answers that the key is a duplicate, or
  -- the error of a page on the way that cannot be read, and the tree keeps its rows.
  pub insert-Refuses :
      (value old : ℤ)
      → t.unique ≡ true
      → lookup_row key rows ≡ some old
      → Refuses duplicate_key t n fuel key rows ids (insert fuel key value)
  unfolding insert
  insert-Refuses value old unique hit =
      Refuses-at_leaf duplicate_key (insert fuel key value) (λ s x run. ground (arith, run))
        (λ s leaf ancestors run f same.
          let found = find_some leaf f.inner key f.node.stored hk old (same ∙ hit) in
          ground (arith, run, unique, found))

  -- `Delete` of an int64 key that no row of a tree of any height has, with more rounds of fuel than
  -- levels of internal pages, does not panic. It answers that the key was not found, or the error
  -- of a page on the way that cannot be read, and the tree keeps its rows.
  pub delete-Refuses :
      lookup_row key rows ≡ none → Refuses key_not_found t n fuel key rows ids (delete fuel key)
  unfolding delete
  delete-Refuses miss =
      Refuses-at_leaf key_not_found (delete fuel key) (λ s x run. ground (arith, run))
        (λ s leaf ancestors run f same.
          let refused = delete-key_not_found leaf f.inner key f.node.stored hk (same ∙ miss) in
          ground (arith, run, refused))
