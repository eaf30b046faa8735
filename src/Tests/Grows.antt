-- ===== src/Tests/Grows.antt =====
-- A tree of one leaf with one row.
use index_lab.Errors.{Result}
use index_lab.Leaf.Correct.{insert-IsLeaf}
use index_lab.Leaf.Rows.{insert_row}
use index_lab.Page.{Page, new_leaf_page, next_leaf_page_id}
use index_lab.Page.Header.{new_leaf_page-Layout, SameHeader-links}
use index_lab.Prelude.{◌≡◌, refl, ◌∙◌, false, inl, none, some, [], arith}
use index_lab.Prelude.Int.{pos, negsuc}
use index_lab.Storage.{write_page}
use index_lab.Store
use index_lab.Store.{direct}
use index_lab.Store.View.{next_id, write-next_id}
use index_lab.Tests.Forest.{opened, written, left_rows}
use index_lab.Tree.{Tree}
use index_lab.Tree.Grow.{IsOneLeaf, LeavesRows, insert-LeavesRows}
use index_lab.Tree.Insert.{insert}
use index_lab.Tree.Shape.{IsLeafNode}

one_leaf :
    (leaf : Page) × IsLeafNode leaf none none left_rows
    × (leaf.id ≡ 1)
    × (next_leaf_page_id leaf ≡ 0)
unfolding insert_row
one_leaf =
    let (empty, kind, next, _, own) = new_leaf_page-Layout 1 in
    let (q, _, l, same) =
      insert-IsLeaf (new_leaf_page 1) [] (negsuc 6)
        (record { stored = empty; int64 = tt; ascending = tt }) (omega arith) (pos 40) (omega arith)
        (omega arith) in
    let (kind', next', _, _) = SameHeader-links (new_leaf_page 1) q same in
    (
      q,
      record { kind = kind' ∙ kind; stored = l; range = ((tt, tt), tt) },
      same.id ∙ own,
      next' ∙ next,
    )

abbrev tree : Tree
tree = record {
  store = direct (write_page opened one_leaf.0).0;
  root_id = 1;
  entry_size = 16;
  unique = false;
  page_splits = 0;
  page_merges = 0;
}

tree-next : next_id tree.store ≡ 4
unfolding Store.write
tree-next = write-next_id (direct opened) one_leaf.0

tree-IsOneLeaf : IsOneLeaf tree one_leaf.0 left_rows
tree-IsOneLeaf =
    let next = tree-next in
    record {
      valid = tt;
      shown = (written opened one_leaf.0 1 one_leaf.2 (omega arith) refl).0;
      node = one_leaf.1;
      last = one_leaf.3;
      positive = omega arith;
      fresh = omega (arith, next);
      room = omega (arith, next);
    }

insert-LeavesRows_example :
    (t' : Tree) × (r : Result (Unit {0})) × (insert 1 (pos 2) (pos 41) tree ≡ some (t', r))
    × LeavesRows (insert_row (pos 2) (pos 41) left_rows) t' r
insert-LeavesRows_example =
    insert-LeavesRows 0 (pos 2) (pos 41) tree one_leaf.0 left_rows tree-IsOneLeaf (tt, tt)
      (omega arith) (omega arith) (inl refl)
