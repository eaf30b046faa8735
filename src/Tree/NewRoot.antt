-- ===== src/Tree/NewRoot.antt =====
-- `propagateSplit` at the root: two trees become one under a new root.
use index_lab.Errors.{Result, ok, err}
use index_lab.Key.{IsInt64, encode_int64}
use index_lab.Leaf.Rows.{Row}
use index_lab.Node.{encode_child_id}
use index_lab.Node.Child.{encode_branch, length-encode_branch}
use index_lab.Page.{
  Page, PageId, internal_page, new_internal_page, new_metadata_page, new_leaf_page, insert_entry,
  leftmost_child_page_id,
}
use index_lab.Page.Header.{
  SameHeader-links, new_leaf_page-Layout, new_internal_page-Layout, root_page_id-new_metadata_page,
}
use index_lab.Page.Insert.{insert_entry-Layout}
use index_lab.Pool.Access.{result_cases}
use index_lab.Prelude.{
  ℕ, suc, ◌^◌, ◌<◌, ◌≡◌, refl, sym, ap, ◌∙◌, inl, inr, true, false, Option, none, some, List, [],
  ◌∷◌, ◌++◌, arith, ◌==◌,
}
use index_lab.Prelude.Int.{ℤ}
use index_lab.Storage.{allocate_page_id}
use index_lab.Storage.ReadWrite.{IsAddressable}
use index_lab.Store
use index_lab.Store.{Store, allocate}
use index_lab.Store.View.{IsStore, Shows, IsWritten, next_id, write-IsWritten, allocate-KeepsAll}
use index_lab.Tree.{Tree, allocate_page, write_page, set_root_id}
use index_lab.Tree.Focus.{KeepsOthers-KeepsIn}
use index_lab.Tree.Insert.{propagate_split}
use index_lab.Tree.Ordered.{Leaves}
use index_lab.Tree.Shape.{
  PageSet, Apart, IsShown, IsInternalNode, IsTree, IsTree-keep, IsTree-place, KeepsIn,
}
use mathlib.Core.Path.{subst}

abbrev pub union : PageSet → PageSet → PageSet
union a b id = elim (a id) [ true ↦ true | false ↦ b id ]

abbrev pub with_page : PageId → PageSet → PageSet
with_page e a id = elim (id == e) [ true ↦ true | false ↦ a id ]

-- Two trees with a separator between their keys, on different pages of which none is the metadata
-- page or the next page to be allocated.
pub record IsPair (s : Store) (n : ℕ) (c d : PageId) (lo hi : Option ℤ) (k : ℤ)
    (left right : List Row) (left_ids right_ids : PageSet) : Type 0 where
  pub first : IsTree s n c lo (some k) left left_ids
  pub second : IsTree s n d (some k) hi right right_ids
  pub apart : Apart left_ids right_ids

-- A page of neither tree is written.
pub IsPair-keep :
    (s t : Store) (n : ℕ) (c d : PageId) (lo hi : Option ℤ) (k : ℤ) (left right : List Row)
    (left_ids right_ids : PageSet)
    → KeepsIn left_ids s t
    → KeepsIn right_ids s t
    → IsPair s n c d lo hi k left right left_ids right_ids
    → IsPair t n c d lo hi k left right left_ids right_ids
IsPair-keep s t n c d lo hi k left right left_ids right_ids a b v = record {
  first = IsTree-keep n s t left_ids a c lo (some k) left left_ids (λ id h. h) v.first;
  second = IsTree-keep n s t right_ids b d (some k) hi right right_ids (λ id h. h) v.second;
  apart = v.apart;
}

-- The page of a new root over two children.
new_root :
    (e c d : PageId) (k : ℤ)
    → IsInt64 k
    → c < 2 ^ 64
    → d < 2 ^ 64
    → (q : Page) × (insert_entry (new_internal_page e c) 0 (encode_branch (k, d)) ≡ some q)
      × IsInternalNode q ((k, d) ∷ [])
      × (q.id ≡ e)
      × (leftmost_child_page_id q ≡ c)
new_root e c d k hk hc hd =
    let (empty, kind, child, own) = new_internal_page-Layout e c hc in
    let (q, run, l, same) =
      insert_entry-Layout (new_internal_page e c) [] 0 (encode_branch (k, d)) empty (omega arith)
        (omega (arith, length-encode_branch (k, d))) in
    let (kind', _, _, child') = SameHeader-links (new_internal_page e c) q same in
    (
      q,
      run,
      record {
        kind = ap (λ t. t == internal_page) (kind' ∙ kind);
        stored = l;
        encoded = (hk, hd, tt);
        ascending = (tt, tt);
      },
      same.id ∙ own,
      child' ∙ child,
    )

module _ (t : Tree) (n : ℕ) (c d : PageId) (k : ℤ) (left right : List Row)
    (left_ids right_ids : PageSet) (valid : IsStore t.store) (hk : IsInt64 k)
    (v : IsPair t.store n c d none none k left right left_ids right_ids)
    (positive : 0 < next_id t.store) (place : IsAddressable (next_id t.store))
    (free_left : left_ids (next_id t.store) ≡ false)
    (free_right : right_ids (next_id t.store) ≡ false) (no_left : left_ids 0 ≡ false)
    (no_right : right_ids 0 ≡ false) where
  abbrev e : PageId
  e = next_id t.store

  abbrev allocated : Tree
  allocated = record t { store = (allocate t.store).0 }

  allocate_page-next : allocate_page t ≡ some (allocated, ok (new_leaf_page e))
  unfolding allocate_page allocate allocate_page_id
  allocate_page-next = refl

  abbrev all_ids : PageSet
  all_ids = with_page e (union left_ids right_ids)

  -- The tree under the new root, in a store that shows it and the two trees.
  under_root :
      (s : Store) (q : Page)
      → IsShown s e q
      → IsInternalNode q ((k, d) ∷ [])
      → leftmost_child_page_id q ≡ c
      → IsPair s n c d none none k left right left_ids right_ids
      → IsTree s (suc n) e none none (left ++ right) all_ids
  under_root s q shown node child pair = (
    q,
    (k, d) ∷ [],
    union left_ids right_ids,
    shown,
    node,
    ground arith,
    ground (arith, free_left, free_right),
    λ id h. ground (arith, h),
    (
      left,
      right,
      left_ids,
      right_ids,
      refl,
      (tt, tt),
      subst (λ x. IsTree s n x none (some k) left left_ids) (sym child) pair.first,
      pair.second,
      λ id h. ground (arith, h),
      λ id h. ground (arith, h),
      pair.apart,
    ),
  )

  -- The writes of the root and of the metadata, and the new root ID.
  module _ (q : Page) (node : IsInternalNode q ((k, d) ∷ [])) (own : q.id ≡ e)
      (child : leftmost_child_page_id q ≡ c) where
    abbrev meta : Page
    meta = new_metadata_page 0 q.id

    abbrev rooted : Store × Result (Unit {0})
    rooted = Store.write allocated.store q

    abbrev described : Store × Result (Unit {0})
    described = Store.write rooted.0 meta

    meta_id : meta.id ≡ 0
    meta_id = (root_page_id-new_metadata_page 0 q.id (omega (arith, place, own))).2

    rooted-IsPair :
        IsStore rooted.0
        × IsPair rooted.0 n c d none none k left right left_ids right_ids
        × IsWritten rooted.0 q rooted.1
    rooted-IsPair =
        let (valid1, all) = allocate-KeepsAll t.store valid in
        let place' : IsAddressable q.id = subst IsAddressable (sym own) place in
        let (valid2, others, shown) = write-IsWritten allocated.store q valid1 place' in
        let pair1 =
          IsPair-keep t.store allocated.store n c d none none k left right left_ids right_ids
            (λ id i b o. all id i b) (λ id i b o. all id i b) v in
        (
          valid2,
          IsPair-keep allocated.store rooted.0 n c d none none k left right left_ids right_ids
              (KeepsOthers-KeepsIn q.id left_ids allocated.store rooted.0
                (ap left_ids own ∙ free_left) others)
              (KeepsOthers-KeepsIn q.id right_ids allocated.store rooted.0
                (ap right_ids own ∙ free_right) others)
              pair1,
          shown,
        )

    described-IsTree :
        rooted.1 ≡ ok tt
        → IsStore described.0 × IsTree described.0 (suc n) q.id none none (left ++ right) all_ids
    described-IsTree done =
        let (valid2, pair2, shown) = rooted-IsPair in
        let (valid3, others, _) = write-IsWritten rooted.0 meta valid2 (omega (arith, meta_id)) in
        let away : (ids : PageSet) → ids 0 ≡ false → KeepsIn ids rooted.0 described.0 = λ ids free.
          KeepsOthers-KeepsIn meta.id ids rooted.0 described.0 (ap ids meta_id ∙ free) others in
        let seen : Shows rooted.0 q = subst (IsWritten rooted.0 q) done shown in
        let root_shown : IsShown described.0 e q = record {
          own = own;
          place = place;
          shown = λ i h.
              others q.id i (q.bytes i) (λ x. absurd (omega (arith, x, meta_id, own, positive)))
                (subst IsAddressable (sym own) place) h (seen i h);
        } in
        (
          valid3,
          subst (λ x. IsTree described.0 (suc n) x none none (left ++ right) all_ids) (sym own)
              (under_root described.0 q root_shown node child (
                IsPair-keep rooted.0 described.0 n c d none none k left right left_ids right_ids
                  (away left_ids no_left) (away right_ids no_right) pair2)),
        )

  -- `propagateSplit` without ancestors, for two trees of one height.
  pub propagate_split-Leaves :
      (p new_page : Page)
      → p.id ≡ c
      → new_page.id ≡ d
      → (t' : Tree) × (r : Result (Unit {0})) × (propagate_split p new_page (encode_int64 k) [] t
          ≡ some (t', r))
        × Leaves (suc n) (left ++ right) all_ids t' r
  unfolding propagate_split write_page set_root_id
  propagate_split-Leaves p new_page own own' =
      let small : (id : PageId) → IsAddressable id → id < 2 ^ 64 = λ id h. omega arith in
      let (q, run, node, root_own, child) =
        new_root e c d k hk (small c (IsTree-place t.store n c none (some k) left left_ids v.first))
          (small d (IsTree-place t.store n d (some k) none right right_ids v.second)) in
      let fresh = (new_leaf_page-Layout e).4 in
      let run' : insert_entry (new_internal_page (new_leaf_page e).id p.id) 0
            (encode_int64 k ++ encode_child_id new_page.id)
          ≡ some q =
        rw (fresh, own, own') run in
      let r1 = rooted q node root_own child in
      let r2 = described q node root_own child in
      let start = allocate_page-next in
      elim (result_cases r1.1) [
        | inr (x, e1) ↦ (
          record t { store = r1.0 },
          err x,
          ground (arith, start, run', e1),
          (rooted-IsPair q node root_own child).0,
        )
        | inl (u, e1) ↦
            let (valid3, tree) = described-IsTree q node root_own child e1 in
            elim (result_cases r2.1) [
              | inr (x, e2) ↦
                  (record t { store = r2.0 }, err x, ground (arith, start, run', e1, e2), valid3)
              | inl (u', e2) ↦ (
                record t { store = r2.0; root_id = q.id },
                ok tt,
                ground (arith, start, run', e1, e2),
                record { valid = valid3; shape = tree },
              )
            ]
      ]
