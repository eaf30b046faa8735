-- ===== src/Tree/Descent.antt =====
-- `findLeafWithPath` in a tree of any height.
use index_lab.Errors.{Result, ok, err}
use index_lab.Key.{IsInt64, encode_int64}
use index_lab.Leaf.Rows.{Row}
use index_lab.Node.{find_child_page_id}
use index_lab.Node.Child.{child_of, find_child_page_id-child_of}
use index_lab.Page.{Page, PageId, leftmost_child_page_id}
use index_lab.Pool.Access.{result_cases}
use index_lab.Prelude.{
  ℕ, zero, suc, ◌+◌, ◌<◌, ◌≡◌, refl, sym, ap, ◌∙◌, inl, inr, Option, some, List, [], ◌∷◌, length,
  arith,
}
use index_lab.Prelude.Int.{ℤ}
use index_lab.Storage.ReadWrite.{IsAddressable}
use index_lab.Store
use index_lab.Store.{Store}
use index_lab.Store.View.{IsStore, KeepsAll, Shows, IsReadFrom, read-IsReadFrom}
use index_lab.Store.Failure.{ErrsOnly, Consumes, ErrsOnly-after, read-Consumes, read_err}
use index_lab.Tree.{Tree, descend, read_page, find_leaf_with_path}
use index_lab.Tree.Context.{InRange}
use index_lab.Tree.Focus.{hole, Hole-Focus, leaf-Focus, Hole, Focus, IsFocus}
use index_lab.Tree.Path.{Chain, Chain-keep, IsPath}
use index_lab.Tree.Shape.{
  PageSet, IsTree, IsTree-byte, IsShown, IsLeafNode-congr, IsTree-keep, IsTree-place,
  IsInternalNode-congr, leftmost-congr, same_bytes,
}
use mathlib.Core.Path.{subst}

-- A run that only reads, and ends at the leaf that the key belongs to, with its ancestors up to page
-- `top`, or with an error because a call of the file fails.
abbrev pub IsDescentTo :
    Tree
    → PageId
    → ℕ
    → PageId
    → Option ℤ
    → Option ℤ
    → List Row
    → PageSet
    → ℤ
    → ℕ
    → Option (Tree × Result (Page × List PageId))
    → Type 0
IsDescentTo t top n c lo hi rows ids key most o =
    (s : Store) × (r : Result (Page × List PageId)) × (o ≡ some (record t { store = s }, r))
    × IsStore s
    × KeepsAll t.store s
    × IsFocus s n c lo hi rows ids key most r
    × IsPath s key top r
    × ErrsOnly t.store r
    × Consumes t.store s

-- A descent below a page, seen from that page.
raise :
    (s : Store) (n m : ℕ) (c d : PageId) (lo hi lo' hi' : Option ℤ) (rows rows' : List Row)
    (ids ids' : PageSet) (key : ℤ) (most : ℕ) (r : Result (Page × List PageId))
    → ((leaf : Page)
        → Focus s n c lo hi rows ids key leaf
        → Focus s m d lo' hi' rows' ids' key leaf)
    → IsFocus s n c lo hi rows ids key most r
    → IsFocus s m d lo' hi' rows' ids' key most r
raise s n m c d lo hi lo' hi' rows rows' ids ids' key most (err x) f v = tt
raise s n m c d lo hi lo' hi' rows rows' ids ids' key most (ok (leaf, ancestors)) f (v, size) =
    (f leaf v, size)

module _ (key : ℤ) (hk : IsInt64 key) (most : ℕ) (top : PageId) where
  descend-IsDescentTo :
      (n fuel : ℕ) (p : Page) (c : PageId) (lo hi : Option ℤ) (rows : List Row) (ids : PageSet)
      (ancestors : List PageId) (t : Tree)
      → n < fuel
      → length ancestors + n ≡ most
      → Chain t.store key top ancestors c
      → IsStore t.store
      → IsTree t.store n c lo hi rows ids
      → p.id ≡ c
      → Shows t.store p
      → InRange lo hi key
      → IsDescentTo t top n c lo hi rows ids key most
          (descend fuel p (encode_int64 key) ancestors t)
  unfolding descend read_page
  descend-IsDescentTo n zero p c lo hi rows ids ancestors t h size path v tree own now range =
      absurd (omega arith)
  descend-IsDescentTo zero (suc fuel) p c lo hi rows ids ancestors t h size path v
        (q, s, node, member) own now range =
      let kind = (IsLeafNode-congr q p lo hi rows (same_bytes t.store c q p s own now) node).kind in
      (
        t.store,
        ok (p, ancestors),
        ground (arith, kind),
        v,
        λ id i b a k e. e,
        (leaf-Focus t.store c lo hi rows ids key p (q, s, node, member) own now range, omega arith),
        subst (Chain t.store key top ancestors) (sym own) path,
        tt,
        λ f. f,
      )
  descend-IsDescentTo (suc n) (suc fuel) p c lo hi rows ids ancestors t h size path v
        (q, branches, below, s, node, member, out, within, forest) own now range =
      let same = same_bytes t.store c q p s own now in
      let here = IsInternalNode-congr q p branches same node in
      let left = leftmost_child_page_id q in
      let gap : Hole t.store n left lo hi branches rows below key =
        hole t.store n key left lo hi branches rows below forest range in
      let found : find_child_page_id p (encode_int64 key) ≡ some gap.child =
        find_child_page_id-child_of p branches key here.stored here.encoded here.ascending hk
        ∙ ap some (ap (λ k. child_of k key branches) (leftmost-congr q p same) ∙ gap.chosen) in
      let place =
        IsTree-place t.store n gap.child gap.inner_lo gap.inner_hi gap.inner gap.inner_ids
          gap.subtree in
      let (valid, keeps, got) = read-IsReadFrom t.store gap.child v place in
      let loaded = Store.read t.store gap.child in
      let t1 : Tree = record t { store = loaded.0 } in
      elim (result_cases loaded.1) [
        | inr (x, e) ↦
            let (b, there) =
              IsTree-byte t.store n gap.child gap.inner_lo gap.inner_hi gap.inner gap.inner_ids
                gap.subtree in
            (
              loaded.0,
              err x,
              ground (arith, here.kind, found, e),
              valid,
              keeps,
              tt,
              tt,
              read_err t.store gap.child b x v place there e,
              read-Consumes t.store gap.child,
            )
        | inl (pg, e) ↦
            let (own1, now1) : IsReadFrom t.store gap.child (ok pg) =
              subst (IsReadFrom t.store gap.child) e got in
            let below1 =
              IsTree-keep n t.store loaded.0 gap.inner_ids (λ id i b own. keeps id i b) gap.child
                gap.inner_lo gap.inner_hi gap.inner gap.inner_ids (λ id h. h) gap.subtree in
            let shown1 : Shows loaded.0 pg = λ i b.
              keeps pg.id i (pg.bytes i) (subst IsAddressable (sym own1) place) b (now1 i b) in
            let here_shown : IsShown t.store p.id p = record {
              own = refl;
              place = subst IsAddressable (sym own) s.place;
              shown = now;
            } in
            let path1 : Chain loaded.0 key top (p.id ∷ ancestors) gap.child =
              Chain-keep t.store loaded.0 key top (p.id ∷ ancestors) gap.child keeps
                (p, here_shown, found, subst (Chain t.store key top ancestors) (sym own) path) in
            let (s2, r, run, valid2, keeps2, focus, path2, errs, consumes) =
              descend-IsDescentTo n fuel pg gap.child gap.inner_lo gap.inner_hi gap.inner
                gap.inner_ids (p.id ∷ ancestors) t1 (omega arith) (omega arith) path1 valid below1
                own1 shown1 gap.range in
            let all : KeepsAll t.store s2 =
              λ id i b a k seen. keeps2 id i b a k (keeps id i b a k seen) in
            (
              s2,
              r,
              ground (arith, here.kind, found, e) ∙ run,
              valid2,
              all,
              raise s2 n (suc n) gap.child c gap.inner_lo gap.inner_hi lo hi gap.inner rows
                  gap.inner_ids ids key most r
                  (λ leaf f.
                    Hole-Focus t.store s2 n c lo hi rows ids below q branches key leaf all s node
                      member out within gap f)
                  focus,
              path2,
              ErrsOnly-after t.store loaded.0 r (read-Consumes t.store gap.child) errs,
              λ f. read-Consumes t.store gap.child (consumes f),
            )
      ]

pub find_leaf_with_path-IsDescentTo :
    (n fuel : ℕ) (t : Tree) (key : ℤ) (lo hi : Option ℤ) (rows : List Row) (ids : PageSet)
    → n < fuel
    → IsStore t.store
    → IsTree t.store n t.root_id lo hi rows ids
    → InRange lo hi key
    → IsInt64 key
    → IsDescentTo t t.root_id n t.root_id lo hi rows ids key n
        (find_leaf_with_path fuel (encode_int64 key) t)
unfolding find_leaf_with_path read_page
find_leaf_with_path-IsDescentTo n fuel t key lo hi rows ids h v tree range hk =
    let place = IsTree-place t.store n t.root_id lo hi rows ids tree in
    let (valid, keeps, got) = read-IsReadFrom t.store t.root_id v place in
    let loaded = Store.read t.store t.root_id in
    let t1 : Tree = record t { store = loaded.0 } in
    elim (result_cases loaded.1) [
      | inr (x, e) ↦
          let (b, there) = IsTree-byte t.store n t.root_id lo hi rows ids tree in
          (
            loaded.0,
            err x,
            ground (arith, e),
            valid,
            keeps,
            tt,
            tt,
            read_err t.store t.root_id b x v place there e,
            read-Consumes t.store t.root_id,
          )
      | inl (pg, e) ↦
          let (own, now) : IsReadFrom t.store t.root_id (ok pg) =
            subst (IsReadFrom t.store t.root_id) e got in
          let kept =
            IsTree-keep n t.store loaded.0 ids (λ id i b o. keeps id i b) t.root_id lo hi rows ids
              (λ id k. k) tree in
          let shown : Shows loaded.0 pg =
            λ i b. keeps pg.id i (pg.bytes i) (subst IsAddressable (sym own) place) b (now i b) in
          let (s, r, run, valid', keeps', focus, path, errs, consumes) =
            descend-IsDescentTo key hk n t.root_id n fuel pg t.root_id lo hi rows ids [] t1 h
              (omega arith) refl valid kept own shown range in
          (
            s,
            r,
            ground (arith, e) ∙ run,
            valid',
            λ id i b a k seen. keeps' id i b a k (keeps id i b a k seen),
            focus,
            path,
            ErrsOnly-after t.store loaded.0 r (read-Consumes t.store t.root_id) errs,
            λ f. read-Consumes t.store t.root_id (consumes f),
          )
    ]
