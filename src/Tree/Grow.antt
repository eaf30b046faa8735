-- ===== src/Tree/Grow.antt =====
-- `Insert` into a tree of one leaf, which grows a root when the leaf is full.
use index_lab.Bytes.{be_decode, read_bytes_congr}
use index_lab.Errors.{Result, ok, err}
use index_lab.Key.{IsInt64, encode_int64}
use index_lab.Leaf.Correct.{insert-IsLeaf, insert-page_full, find_none, total-encode_rows}
use index_lab.Leaf.Rows.{Row, lookup_row, insert_row, length-encode_rows}
use index_lab.Page.{Page, PageId, page_size, next_leaf_page_id, get_field}
use index_lab.Pool.Access.{result_cases}
use index_lab.Prelude.{
  ℕ, suc, ◌+◌, ◌^◌, ◌≤◌, ◌<◌, ◌≡◌, ◌⊎◌, sym, ap, ◌∙◌, inl, inr, false, none, some, List, [], length,
  arith, Bool-cases,
}
use index_lab.Prelude.Int.{ℤ}
use index_lab.Storage.ReadWrite.{IsAddressable}
use index_lab.Store
use index_lab.Store.{Store}
use index_lab.Store.View.{
  IsStore, IsReadFrom, next_id, IsWritten, read-IsReadFrom, read-next_id, write-IsWritten,
}
use index_lab.Tree.{Tree, find_leaf_with_path, descend, read_page, write_page}
use index_lab.Tree.Context.{insert_row-AllIn}
use index_lab.Tree.Insert.{insert, insert_at_leaf, split_and_insert}
use index_lab.Tree.NewRoot.{propagate_split-Leaves, with_page, union}
use index_lab.Tree.Ordered.{Leaves}
use index_lab.Tree.Shape.{
  PageSet, IsShown, IsLeafNode, same_bytes, IsLeafNode-congr, page_type-congr,
}
use index_lab.Tree.SplitInsert.{split_and_insert-Splits}
use index_lab.Tree.SplitLeaf.{single}
use index_lab.Tree.SplitRows.{Distinct}
use mathlib.Core.Path.{subst}
use native.Mathlib.Decide.{dec_lt}

next_leaf_page_id-congr :
    (p q : Page)
    → ((i : ℕ) → i < page_size → q.bytes i ≡ p.bytes i)
    → next_leaf_page_id q ≡ next_leaf_page_id p
unfolding next_leaf_page_id get_field
next_leaf_page_id-congr p q same =
    ap be_decode (read_bytes_congr q.bytes p.bytes 13 8 (λ b i j. same b (omega arith)))

-- `Insert` at a leaf, once it is known that no row forbids it.
insert-at_leaf :
    (fuel : ℕ) (key value : ℤ) (t t1 : Tree) (leaf : Page) (ancestors : List PageId)
    (rows : List Row)
    → IsLeafNode leaf none none rows
    → IsInt64 key
    → find_leaf_with_path fuel (encode_int64 key) t ≡ some (t1, ok (leaf, ancestors))
    → (t.unique ≡ false) ⊎ (lookup_row key rows ≡ none)
    → insert fuel key value t ≡ insert_at_leaf leaf ancestors key value t1
unfolding insert
insert-at_leaf fuel key value t t1 leaf ancestors rows node hk run (inl plain) =
    ground (arith, run, plain)
insert-at_leaf fuel key value t t1 leaf ancestors rows node hk run (inr absent) =
    let miss = find_none leaf rows key node.stored hk absent in
    elim (Bool-cases t.unique) [
      | inl u ↦ ground (arith, run, u, miss)
      | inr u ↦ ground (arith, run, u)
    ]

-- A tree of one leaf that no leaf follows, in a store whose next page is new.
pub record IsOneLeaf (t : Tree) (leaf : Page) (rows : List Row) : Type 0 where
  pub valid : IsStore t.store
  pub shown : IsShown t.store t.root_id leaf
  pub node : IsLeafNode leaf none none rows
  pub last : next_leaf_page_id leaf ≡ 0
  pub positive : 0 < t.root_id
  pub fresh : t.root_id < next_id t.store
  pub room : next_id t.store + 1 < 2 ^ 51

-- The rows after a call that succeeds, in a tree of at most one level of internal pages.
abbrev pub LeavesRows : List Row → Tree → Result (Unit {0}) → Type 0
LeavesRows rows t r = (n : ℕ) × (ids : PageSet) × (n ≤ 1) × Leaves n rows ids t r

module _ (fuel : ℕ) (key value : ℤ) (t : Tree) (leaf : Page) (rows : List Row)
    (v : IsOneLeaf t leaf rows) (distinct : Distinct rows) (hk : IsInt64 key) (hv : IsInt64 value)
    (free : (t.unique ≡ false) ⊎ (lookup_row key rows ≡ none)) where
  abbrev c : PageId
  c = t.root_id

  abbrev loaded : Store × Result Page
  loaded = Store.read t.store c

  abbrev t1 : Tree
  t1 = record t { store = loaded.0 }

  -- The page read, as a tree of one leaf.
  module _ (pg : Page) (e : loaded.1 ≡ ok pg) where
    read_leaf :
        IsStore loaded.0
        × IsShown loaded.0 c pg
        × IsLeafNode pg none none rows
        × (next_leaf_page_id pg ≡ 0)
    read_leaf =
        let (valid, keeps, got) = read-IsReadFrom t.store c v.valid v.shown.place in
        let (own, now) : IsReadFrom t.store c (ok pg) = subst (IsReadFrom t.store c) e got in
        let same = same_bytes t.store c leaf pg v.shown own now in
        (
          valid,
          record {
            own = own;
            place = v.shown.place;
            shown = λ i h.
                keeps pg.id i (pg.bytes i) (subst IsAddressable (sym own) v.shown.place) h
                  (now i h);
          },
          IsLeafNode-congr leaf pg none none rows same v.node,
          next_leaf_page_id-congr leaf pg same ∙ v.last,
        )

    at_leaf : insert (suc fuel) key value t ≡ insert_at_leaf pg [] key value t1
    unfolding find_leaf_with_path descend read_page
    at_leaf =
        let (_, _, node, _) = read_leaf in
        insert-at_leaf (suc fuel) key value t t1 pg [] rows node hk (ground (arith, e, node.kind))
          free

    insert-roomy :
        length rows < 203
        → (t' : Tree) × (r : Result (Unit {0})) × (insert (suc fuel) key value t ≡ some (t', r))
          × LeavesRows (insert_row key value rows) t' r
    unfolding insert_at_leaf write_page
    insert-roomy room =
        let (valid, shown, node, _) = read_leaf in
        let (q, inserted, l, same) = insert-IsLeaf pg rows key node.stored hk value hv room in
        let w = Store.write loaded.0 q in
        let after : Tree = record t { store = w.0 } in
        let own : q.id ≡ c = same.id ∙ shown.own in
        let (valid', _, written) =
          write-IsWritten loaded.0 q valid (subst IsAddressable (sym own) v.shown.place) in
        let rows' = insert_row key value rows in
        let q_node : IsLeafNode q none none rows' = record {
          kind = page_type-congr pg q same.page_type ∙ node.kind;
          stored = l;
          range = insert_row-AllIn none none key value rows (tt, tt) node.range;
        } in
        let run : insert (suc fuel) key value t ≡ write_page q t1 =
          at_leaf ∙ ground (arith, inserted) in
        elim (result_cases w.1) [
          | inr (x, e1) ↦
              (after, err x, run ∙ ground (arith, e1), (0, single c, omega arith, valid'))
          | inl (u, e1) ↦ (
            after,
            ok tt,
            run ∙ ground (arith, e1),
            (
              0,
              single c,
              omega arith,
              record {
                valid = valid';
                shape = (
                  q,
                  record {
                    own = own;
                    place = v.shown.place;
                    shown = subst (IsWritten w.0 q) e1 written;
                  },
                  q_node,
                  ground arith,
                );
              },
            ),
          )
        ]

    insert-full :
        203 ≤ length rows
        → (t' : Tree) × (r : Result (Unit {0})) × (insert (suc fuel) key value t ≡ some (t', r))
          × LeavesRows (insert_row key value rows) t' r
    unfolding insert_at_leaf
    insert-full full =
        let (valid, shown, node, last) = read_leaf in
        let next = read-next_id t.store c in
        let few : length rows ≤ 203 =
          omega (arith, node.stored.stored.fits, length-encode_rows rows, total-encode_rows rows) in
        let refused = insert-page_full pg rows key node.stored hk value hv full in
        let start : insert (suc fuel) key value t ≡ split_and_insert pg [] key value t1 =
          at_leaf ∙ ground (arith, refused) in
        let d = next_id loaded.0 in
        elim (split_and_insert-Splits t1 pg none none rows key value [] valid node distinct
          (omega arith) few (subst IsAddressable (sym shown.own) shown.place)
          (omega (arith, next, v.room)) (λ x. absurd (omega (arith, x, shown.own, next, v.fresh)))
          last (tt, tt) hk hv) [
            | inl (s, n, x, run, valid') ↦ (
              record t1 { store = s; page_splits = n },
              err x,
              start ∙ run,
              (0, single c, omega arith, valid'),
            )
            | inr (s, n, a, b, k, left, right, run, a_own, b_own, valid', int, pair, whole, e') ↦
                let split : Tree = record t1 { store = s; page_splits = n } in
                let (t', r, grown, leaves) =
                  propagate_split-Leaves split 0 pg.id d k left right (single pg.id) (single d)
                    valid' int pair (omega (arith, e')) (omega (arith, e', next, v.room))
                    (ground (arith, e', next, v.fresh, shown.own)) (ground (arith, e'))
                    (ground (arith, shown.own, v.positive)) (ground (arith, next, v.fresh)) a b
                    a_own b_own in
                (
                  t',
                  r,
                  start ∙ run ∙ grown,
                  (
                    1,
                    with_page (next_id s) (union (single pg.id) (single d)),
                    omega arith,
                    subst
                        (λ m.
                          Leaves 1 m (with_page (next_id s) (union (single pg.id) (single d))) t' r)
                        whole leaves,
                  ),
                )
          ]

  -- `Insert` of an int64 key and record ID, with one round of fuel or more, into a tree of one leaf
  -- whose keys are all different, and that allows duplicates or does not have the key, does not
  -- panic, whether the leaf has room, or is full and the tree grows a root. If it succeeds, the
  -- tree has at most one level of internal pages and holds its rows with the new one in its place.
  -- Conditions: no leaf follows the one, its page is not the metadata page, and the next two page
  -- IDs are new and below 2^51.
  pub insert-LeavesRows :
      (t' : Tree) × (r : Result (Unit {0})) × (insert (suc fuel) key value t ≡ some (t', r))
      × LeavesRows (insert_row key value rows) t' r
  unfolding insert find_leaf_with_path read_page
  insert-LeavesRows = elim (result_cases loaded.1) [
    | inr (x, e) ↦ (
      t1,
      err x,
      ground (arith, e),
      (0, single c, omega arith, (read-IsReadFrom t.store c v.valid v.shown.place).0),
    )
    | inl (pg, e) ↦ elim (dec_lt (length rows) 203) [
      | yes room ↦ insert-roomy pg e room
      | no full ↦ insert-full pg e (omega arith)
    ]
  ]
