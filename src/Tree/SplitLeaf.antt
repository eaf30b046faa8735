-- ===== src/Tree/SplitLeaf.antt =====
-- `Insert` at a full leaf: the leaf becomes two leaves with a separator between their keys.
use index_lab.Errors.{Error, err}
use index_lab.Key.{IsInt64, encode_int64}
use index_lab.Leaf.Place.{encode_rows-Sized, take-encode_row}
use index_lab.Leaf.Rows.{Row, encode_row, encode_rows, length-encode_rows}
use index_lab.Node.{Split, split_leaf}
use index_lab.Node.Splits.{split_leaf-IsLeafSplit}
use index_lab.Page.{Page, PageId, new_leaf_page, next_leaf_page_id}
use index_lab.Page.Header.{new_leaf_page-Layout}
use index_lab.Page.Layout.{Layout}
use index_lab.Page.Suffix.{get_or-drop}
use index_lab.Pool.Access.{result_cases}
use index_lab.Prelude.{
  ℕ, ◌/◌, ◌^◌, ◌≤◌, ◌<◌, ◌≡◌, ◌≢◌, ◌⊎◌, sym, ap, ◌∙◌, inl, inr, Option, some, List, [], ◌++◌,
  length, get_or, take, drop, length-take, length-drop, take-append-drop, arith, ◌==◌, List-cases,
}
use index_lab.Prelude.Int.{ℤ}
use index_lab.Storage.ReadWrite.{IsAddressable}
use index_lab.Store
use index_lab.Store.{Store, allocate}
use index_lab.Store.View.{IsStore, Shows, IsWritten, next_id, write-IsWritten, write-next_id}
use index_lab.Tree.{Tree, Step, write_page, ◌>>◌}
use index_lab.Tree.Context.{InRange}
use index_lab.Tree.NewRoot.{IsPair}
use index_lab.Tree.Shape.{PageSet, IsLeafNode}
use index_lab.Tree.SplitRows.{
  Distinct, encode_rows-take, encode_rows-drop, take-AreInt64, drop-AreInt64, take-Ascending,
  drop-Ascending, cut-AllIn,
}
use mathlib.Core.Path.{subst}

abbrev pub single : PageId → PageSet
single c id = id == c

-- Two leaves written one after the other, and then the rest of the code: a write fails, or the store
-- holds them as two trees.
module _ (t : Tree) (a b : Page) (c d : PageId) (lo hi : Option ℤ) (k : ℤ) (left right : List Row)
    (valid : IsStore t.store) (a_node : IsLeafNode a lo (some k) left)
    (b_node : IsLeafNode b (some k) hi right) (a_own : a.id ≡ c) (b_own : b.id ≡ d)
    (c_place : IsAddressable c) (d_place : IsAddressable d) (other : c ≢ d) where
  pub write_both :
      (rest : Step (Unit {0}))
      → ((s : Store) × (x : Error) × ((write_page a >> (write_page b >> rest)) t
            ≡ some (record t { store = s }, err x))
          × IsStore s)
        ⊎ ((s : Store) × ((write_page a >> (write_page b >> rest)) t
              ≡ rest (record t { store = s }))
            × IsStore s
            × IsPair s 0 c d lo hi k left right (single c) (single d)
            × (next_id s ≡ next_id t.store))
  unfolding write_page
  write_both rest =
      let w1 = Store.write t.store a in
      let w2 = Store.write w1.0 b in
      let (valid1, _, shown1) =
        write-IsWritten t.store a valid (subst IsAddressable (sym a_own) c_place) in
      let (valid2, others2, shown2) =
        write-IsWritten w1.0 b valid1 (subst IsAddressable (sym b_own) d_place) in
      elim (result_cases w1.1) [
        | inr (x, e1) ↦ inl (w1.0, x, ground (arith, e1), valid1)
        | inl (u, e1) ↦ elim (result_cases w2.1) [
          | inr (x, e2) ↦ inl (w2.0, x, ground (arith, e1, e2), valid2)
          | inl (u', e2) ↦
              let a_seen : Shows w1.0 a = subst (IsWritten w1.0 a) e1 shown1 in
              let b_seen : Shows w2.0 b = subst (IsWritten w2.0 b) e2 shown2 in
              let a_kept : Shows w2.0 a = λ i h.
                others2 a.id i (a.bytes i) (λ e. absurd (other (sym a_own ∙ sym e ∙ b_own)))
                  (subst IsAddressable (sym a_own) c_place) h (a_seen i h) in
              inr (
                w2.0,
                ground (arith, e1, e2),
                valid2,
                record {
                  first = (
                    a,
                    record { own = a_own; place = c_place; shown = a_kept },
                    a_node,
                    ground arith,
                  );
                  second = (
                    b,
                    record { own = b_own; place = d_place; shown = b_seen },
                    b_node,
                    ground arith,
                  );
                  apart = λ id h. ground (arith, h, other);
                },
                write-next_id w1.0 b ∙ write-next_id t.store a,
              )
        ]
      ]

-- The two halves of a leaf, once it is split and before they are written.
pub record IsHalves (leaf : Page) (d : PageId) (lo hi : Option ℤ) (inner : List Row) (r : Split)
    (k : ℤ) (left right : List Row) : Type 0 where
  pub int64 : IsInt64 k
  pub separator : r.separator ≡ encode_int64 k
  pub range : InRange lo hi k
  pub whole : left ++ right ≡ inner
  pub left_node : IsLeafNode r.old_page lo (some k) left
  pub right_node : IsLeafNode r.new_page (some k) hi right
  pub left_size : length left ≤ 101
  pub right_size : length right ≤ 102
  pub left_id : r.old_page.id ≡ leaf.id
  pub right_id : r.new_page.id ≡ d
  pub right_next : next_leaf_page_id r.new_page ≡ next_leaf_page_id leaf

module _ (leaf : Page) (d : PageId) (lo hi : Option ℤ) (inner : List Row)
    (node : IsLeafNode leaf lo hi inner) (distinct : Distinct inner) (two : 2 ≤ length inner)
    (few : length inner ≤ 203) (leaf_place : IsAddressable leaf.id) (d_place : IsAddressable d)
    (next_small : next_leaf_page_id leaf < 2 ^ 64) where
  abbrev mid : ℕ
  mid = length (encode_rows inner) / 2

  pub halves :
      (r : Split) × (k : ℤ) × (left : List Row) × (right : List Row) × (split_leaf leaf
          (new_leaf_page d)
        ≡ some r)
      × IsHalves leaf d lo hi inner r k left right
  halves =
      let (empty, fresh_kind, _, _, fresh_id) = new_leaf_page-Layout d in
      let count = length-encode_rows inner in
      let (r, run, split) =
        split_leaf-IsLeafSplit leaf (new_leaf_page d) (encode_rows inner) 8 node.stored.stored
          (encode_rows-Sized inner) (omega (arith, count)) empty (omega arith)
          (omega (arith, fresh_id)) next_small in
      elim (List-cases (drop mid inner)) [
        | inl empty_right ↦
            absurd (omega (arith, count, length-drop mid inner, ap length empty_right))
        | inr ((k, v), rest, e) ↦
            let (left_range, right_range, range, int) =
              cut-AllIn k v rest lo hi mid inner distinct node.range node.stored.int64 e in
            let first : get_or (encode_rows inner) mid [] ≡ encode_row (k, v) =
              ap (λ i. get_or (encode_rows inner) i []) (omega arith)
              ∙ get_or-drop mid 0 (encode_rows inner)
              ∙ ap (λ es. get_or es 0 []) (sym (encode_rows-drop mid inner))
              ∙ ap (λ rs. get_or (encode_rows rs) 0 []) e in
            (
              r,
              k,
              take mid inner,
              drop mid inner,
              run,
              record {
                int64 = int;
                separator = split.separator ∙ ap (take 8) first ∙ take-encode_row (k, v);
                range = range;
                whole = take-append-drop mid inner;
                left_node = record {
                  kind = split.old_type ∙ node.kind;
                  stored = record {
                    stored =
                        subst (Layout r.old_page) (sym (encode_rows-take mid inner)) split.left;
                    int64 = take-AreInt64 mid inner node.stored.int64;
                    ascending = take-Ascending mid inner node.stored.ascending;
                  };
                  range = left_range;
                };
                right_node = record {
                  kind = split.new_type ∙ fresh_kind;
                  stored = record {
                    stored =
                        subst (Layout r.new_page) (sym (encode_rows-drop mid inner)) split.right;
                    int64 = drop-AreInt64 mid inner node.stored.int64;
                    ascending = drop-Ascending mid inner node.stored.ascending;
                  };
                  range = right_range;
                };
                left_size = omega (arith, count, length-take mid inner);
                right_size = omega (arith, count, length-drop mid inner);
                left_id = split.old_id;
                right_id = split.new_id ∙ fresh_id;
                right_next = split.new_next;
              },
            )
      ]
