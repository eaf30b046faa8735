-- ===== src/Tree/SplitInsert.antt =====
-- The part of `Insert` for a full leaf that no leaf follows, up to the call of `propagateSplit`.
use index_lab.Errors.{Error, Result, ok, err}
use index_lab.Key.{IsInt64, encode_int64, compare_keys}
use index_lab.Key.Order.{compare_keys-encode_int64}
use index_lab.Leaf.Correct.{insert-IsLeaf}
use index_lab.Leaf.Rows.{Row, insert_row}
use index_lab.Node.{is_ge}
use index_lab.Page.{Page, PageId, new_leaf_page, next_leaf_page_id}
use index_lab.Prelude.{
  ℕ, suc, ◌+◌, ◌≤◌, ◌≡◌, ◌≢◌, ◌⊎◌, refl, sym, ap, ◌∙◌, inl, inr, true, false, Option, some, List,
  ◌++◌, length, arith, ◌==◌, Bool-cases,
}
use index_lab.Prelude.Int.{ℤ, compare_ℤ, ltb_ℤ, ◌≤ℤ◌, ◌<ℤ◌}
use index_lab.Storage.{PageManager, allocate_page_id, word64}
use index_lab.Storage.ReadWrite.{IsAddressable}
use index_lab.Store.{Store, direct, pooled, with_manager, allocate}
use index_lab.Store.View.{IsStore, next_id, allocate-KeepsAll}
use index_lab.Tree.{Tree, write_page, allocate_page, ◌>>◌}
use index_lab.Tree.Context.{InRange, IsContext-left, IsContext-right, insert_row-AllIn}
use index_lab.Tree.Insert.{
  split_and_insert, propagate_split, count_split, update_next_leaf_prev_link,
}
use index_lab.Tree.NewRoot.{IsPair}
use index_lab.Tree.Shape.{IsLeafNode, page_type-congr}
use index_lab.Tree.SplitRows.{Distinct}
use index_lab.Tree.SplitLeaf.{single, write_both, halves}

-- The call fails and the store is valid, or it goes on with two trees in place of the leaf.
abbrev pub Splits :
    Tree
    → PageId
    → PageId
    → Option ℤ
    → Option ℤ
    → List Row
    → List PageId
    → Option (Tree × Result (Unit {0}))
    → Type 0
Splits t c d lo hi rows ancestors o =
    ((s : Store) × (n : ℕ) × (x : Error) × (o
        ≡ some (record t { store = s; page_splits = n }, err x))
      × IsStore s)
    ⊎ ((s : Store) × (n : ℕ) × (a : Page) × (b : Page) × (k : ℤ) × (left : List Row) × (right : List
          Row)
        × (o
            ≡ propagate_split a b (encode_int64 k) ancestors
                (record t { store = s; page_splits = n }))
        × (a.id ≡ c)
        × (b.id ≡ d)
        × IsStore s
        × IsInt64 k
        × IsPair s 0 c d lo hi k left right (single c) (single d)
        × (left ++ right ≡ rows)
        × (next_id s ≡ suc d))

-- Both halves written, one of them with the new row.
module _ (t : Tree) (a b : Page) (c d : PageId) (lo hi : Option ℤ) (k : ℤ)
    (left right rows : List Row) (separator : List ℕ) (ancestors : List PageId)
    (o : Option (Tree × Result (Unit {0}))) where
  written_halves :
      (start : Tree) (n : ℕ)
      → start ≡ record t { store = start.store; page_splits = n }
      → o ≡ (write_page a >> (write_page b >> propagate_split a b separator ancestors)) start
      → separator ≡ encode_int64 k
      → IsStore start.store
      → IsLeafNode a lo (some k) left
      → IsLeafNode b (some k) hi right
      → a.id ≡ c
      → b.id ≡ d
      → IsAddressable c
      → IsAddressable d
      → c ≢ d
      → IsInt64 k
      → left ++ right ≡ rows
      → next_id start.store ≡ suc d
      → Splits t c d lo hi rows ancestors o
  written_halves start n shape run sep valid an bn ao bo cp dp other hk whole next =
      elim (write_both start a b c d lo hi k left right valid an bn ao bo cp dp other
        (propagate_split a b separator ancestors)) [
          | inl (s, x, e, valid') ↦
              inl (s, n, x, run ∙ e ∙ ap (λ u. some (record u { store = s }, err x)) shape, valid')
          | inr (s, e, valid', pair, same) ↦ inr (
            s,
            n,
            a,
            b,
            k,
            left,
            right,
            run
                ∙ e
                ∙ ap (λ u. propagate_split a b separator ancestors (record u { store = s })) shape
                ∙ ap
                    (λ m. propagate_split a b m ancestors (record t { store = s; page_splits = n }))
                    sep,
            ao,
            bo,
            valid',
            hk,
            pair,
            whole,
            same ∙ next,
          )
        ]

next_id-with_manager :
    (s : Store) (pm : PageManager) → next_id (with_manager s pm) ≡ pm.next_page_id
next_id-with_manager (direct pm') pm = refl
next_id-with_manager (pooled p) pm = refl

module _ (t : Tree) (leaf : Page) (lo hi : Option ℤ) (inner : List Row) (key value : ℤ)
    (ancestors : List PageId) (valid : IsStore t.store) (node : IsLeafNode leaf lo hi inner)
    (distinct : Distinct inner) (two : 2 ≤ length inner) (few : length inner ≤ 203)
    (place : IsAddressable leaf.id) (d_place : IsAddressable (next_id t.store))
    (other : leaf.id ≢ next_id t.store) (last : next_leaf_page_id leaf ≡ 0)
    (range : InRange lo hi key) (hk : IsInt64 key) (hv : IsInt64 value) where
  abbrev d : PageId
  d = next_id t.store

  abbrev splits : ℕ
  splits = word64 (t.page_splits + 1)

  abbrev counted : Tree
  counted = record t { store = (allocate t.store).0; page_splits = splits }

  allocate_page-next :
      allocate_page t ≡ some (record t { store = (allocate t.store).0 }, ok (new_leaf_page d))
  unfolding allocate_page allocate allocate_page_id
  allocate_page-next = refl

  allocate-next_id : next_id (allocate t.store).0 ≡ suc d
  unfolding allocate allocate_page_id
  allocate-next_id = next_id-with_manager t.store _ ∙ omega (arith, d_place)

  pub split_and_insert-Splits :
      Splits t leaf.id d lo hi
        (insert_row key value inner)
        ancestors
        (split_and_insert leaf ancestors key value t)
  unfolding split_and_insert count_split update_next_leaf_prev_link
  split_and_insert-Splits =
      let (r, k, left, right, run, h) =
        halves leaf d lo hi inner node distinct two few place d_place (omega (arith, last)) in
      let (valid', _) = allocate-KeepsAll t.store valid in
      let no_next : (next_leaf_page_id r.new_page == 0) ≡ true =
        ap (λ i. i == 0) (h.right_next ∙ last) in
      let compared : compare_keys (encode_int64 key) r.separator ≡ compare_ℤ key k =
        ap (compare_keys (encode_int64 key)) h.separator
        ∙ compare_keys-encode_int64 key k hk h.int64 in
      elim (Bool-cases (ltb_ℤ key k)) [
        | inr above ↦
            let le : k ≤ℤ key = ground (arith, above) in
            let (q, inserted, l, same) =
              insert-IsLeaf r.new_page right key h.right_node.stored hk value hv
                (omega (arith, h.right_size)) in
            let ge : is_ge (compare_keys (encode_int64 key) r.separator) ≡ true =
              ap is_ge compared ∙ ground (arith, above) in
            let q_node : IsLeafNode q (some k) hi (insert_row key value right) = record {
              kind = page_type-congr r.new_page q same.page_type ∙ h.right_node.kind;
              stored = l;
              range = insert_row-AllIn (some k) hi key value right (le, range.1) h.right_node.range;
            } in
            let whole =
              sym ((IsContext-left key k lo le left h.left_node.range).insert value right)
              ∙ ap (insert_row key value) h.whole in
            written_halves t r.old_page q leaf.id d lo hi k left (insert_row key value right)
              (insert_row key value inner) r.separator ancestors
              (split_and_insert leaf ancestors key value t) counted splits refl
              (ground (arith, allocate_page-next, run, no_next, ge, inserted)) h.separator valid'
              h.left_node q_node h.left_id (same.id ∙ h.right_id) place d_place other h.int64 whole
              allocate-next_id
        | inl below ↦
            let lt : key <ℤ k = ground (arith, below) in
            let (q, inserted, l, same) =
              insert-IsLeaf r.old_page left key h.left_node.stored hk value hv
                (omega (arith, h.left_size)) in
            let ge : is_ge (compare_keys (encode_int64 key) r.separator) ≡ false =
              ap is_ge compared ∙ ground (arith, below) in
            let q_node : IsLeafNode q lo (some k) (insert_row key value left) = record {
              kind = page_type-congr r.old_page q same.page_type ∙ h.left_node.kind;
              stored = l;
              range = insert_row-AllIn lo (some k) key value left (range.0, lt) h.left_node.range;
            } in
            let whole =
              sym ((IsContext-right key k hi lt right h.right_node.range).insert value left)
              ∙ ap (insert_row key value) h.whole in
            written_halves t q r.new_page leaf.id d lo hi k (insert_row key value left) right
              (insert_row key value inner) r.separator ancestors
              (split_and_insert leaf ancestors key value t) counted splits refl
              (ground (arith, allocate_page-next, run, no_next, ge, inserted)) h.separator valid'
              q_node h.right_node (same.id ∙ h.left_id) h.right_id place d_place other h.int64 whole
              allocate-next_id
      ]
