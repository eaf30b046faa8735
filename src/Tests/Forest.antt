-- ===== src/Tests/Forest.antt =====
-- A root with one separator over two leaves of one row each, in a file without a pool.
use index_lab.Key.{encode_int64}
use index_lab.Leaf.Correct.{IsLeaf, insert-IsLeaf}
use index_lab.Leaf.Rows.{Row, insert_row}
use index_lab.Node.Child.{Branch, encode_branch, length-encode_branch}
use index_lab.Page.{
  Page, PageId, page_type, leaf_page, internal_page, new_leaf_page, new_internal_page,
  leftmost_child_page_id,
}
use index_lab.Page.Header.{new_leaf_page-Layout, new_internal_page-Layout, SameHeader-links}
use index_lab.Page.Insert.{insert_entry-Layout}
use index_lab.Prelude.{
  ◌≡◌, ◌≢◌, refl, sym, ap, ◌∙◌, true, false, none, some, List, [], ◌∷◌, arith, ◌==◌, not,
}
use index_lab.Prelude.Int.{ℤ, pos, negsuc}
use index_lab.Storage.{PageManager, write_page}
use index_lab.Storage.ReadWrite.{IsAddressable, write_page_calm}
use index_lab.Store
use index_lab.Store.{Store, direct}
use index_lab.Store.View.{KeepsOthers, IsWritten, write-IsWritten}
use index_lab.Tree.{Tree}
use index_lab.Tree.Ordered.{IsOrdered}
use index_lab.Tree.Shape.{PageSet, IsShown, IsInternalNode, IsTree}
use mathlib.Core.Path.{subst}

abbrev pub opened : PageManager
opened = record {
  file = record { content = λ i. 0; size = 0; position = 0; outcomes = [] };
  next_page_id = 4;
  page_reads = 0;
  page_writes = 0;
  sync_calls = 0;
}

-- A leaf page with one row.
pub one_leaf :
    (id : PageId) (key value : ℤ)
    → index_lab.Key.IsInt64 key
    → index_lab.Key.IsInt64 value
    → (leaf : Page) × IsLeaf leaf ((key, value) ∷ [])
      × (leaf.id ≡ id)
      × (page_type leaf ≡ leaf_page)
unfolding insert_row
one_leaf id key value hk hv =
    let (empty, kind, _, _, own) = new_leaf_page-Layout id in
    let (q, _, l, same) =
      insert-IsLeaf (new_leaf_page id) [] key
        (record { stored = empty; int64 = tt; ascending = tt }) hk value hv (omega arith) in
    (q, l, same.id ∙ own, (SameHeader-links (new_leaf_page id) q same).0 ∙ kind)

abbrev pub left_rows : List Row
left_rows = (negsuc 6, pos 40) ∷ []

abbrev pub right_rows : List Row
right_rows = (pos 5, pos 50) ∷ []

abbrev pub rows : List Row
rows = (negsuc 6, pos 40) ∷ (pos 5, pos 50) ∷ []

abbrev pub branches : List Branch
branches = (pos 0, 3) ∷ []

pub left_leaf : (leaf : Page) × IsLeaf leaf left_rows × (leaf.id ≡ 1) × (page_type leaf ≡ leaf_page)
left_leaf = one_leaf 1 (negsuc 6) (pos 40) (omega arith) (omega arith)

pub right_leaf :
    (leaf : Page) × IsLeaf leaf right_rows × (leaf.id ≡ 3) × (page_type leaf ≡ leaf_page)
right_leaf = one_leaf 3 (pos 5) (pos 50) (omega arith) (omega arith)

pub root : (p : Page) × IsInternalNode p branches × (p.id ≡ 2) × (leftmost_child_page_id p ≡ 1)
root =
    let (empty, kind, child, own) = new_internal_page-Layout 2 1 (omega arith) in
    let (q, _, l, same) =
      insert_entry-Layout (new_internal_page 2 1) [] 0 (encode_branch (pos 0, 3)) empty
        (omega arith) (omega (arith, length-encode_branch (pos 0, 3))) in
    let (kind', _, _, child') = SameHeader-links (new_internal_page 2 1) q same in
    (
      q,
      record {
        kind = ap (λ k. k == internal_page) (kind' ∙ kind);
        stored = l;
        encoded = (omega arith, omega arith, tt);
        ascending = (tt, tt);
      },
      same.id ∙ own,
      child' ∙ child,
    )

-- A page written to a file whose calls do not fail.
pub written :
    (pm : PageManager) (p : Page) (id : PageId)
    → p.id ≡ id
    → IsAddressable id
    → pm.file.outcomes ≡ []
    → IsShown (direct (write_page pm p).0) id p
      × KeepsOthers id (direct pm) (direct (write_page pm p).0)
      × ((write_page pm p).0.file.outcomes ≡ [])
unfolding Store.write
written pm p id own place calm =
    let place' : IsAddressable p.id = subst IsAddressable (sym own) place in
    let (done, calm', _) = write_page_calm pm p place' calm in
    let (_, others, shown) = write-IsWritten (direct pm) p tt place' in
    (
      record {
        own = own;
        place = place;
        shown = subst (IsWritten (direct (write_page pm p).0) p) done shown;
      },
      λ k i b other. others k i b (λ e. other (sym own ∙ e)),
      calm',
    )

pub shown_later :
    (s t : Store) (x id : PageId) (p : Page)
    → x ≢ id
    → KeepsOthers x s t
    → IsShown s id p
    → IsShown t id p
shown_later s t x id p other keeps v = record {
  own = v.own;
  place = v.place;
  shown = λ i h.
      keeps p.id i (p.bytes i) (λ e. other (e ∙ v.own)) (subst IsAddressable (sym v.own) v.place) h
        (v.shown i h);
}

abbrev pub pm1 : PageManager
pm1 = (write_page opened left_leaf.0).0

abbrev pub pm2 : PageManager
pm2 = (write_page pm1 right_leaf.0).0

abbrev pub pm3 : PageManager
pm3 = (write_page pm2 root.0).0

pub pages_shown :
    IsShown (direct pm3) 1 left_leaf.0
    × IsShown (direct pm3) 3 right_leaf.0
    × IsShown (direct pm3) 2 root.0
pages_shown =
    let (a, _, calm1) = written opened left_leaf.0 1 left_leaf.2 (omega arith) refl in
    let (b, keeps2, calm2) = written pm1 right_leaf.0 3 right_leaf.2 (omega arith) calm1 in
    let (c, keeps3, _) = written pm2 root.0 2 root.2 (omega arith) calm2 in
    let later = shown_later (direct pm2) (direct pm3) 2 in
    (
      later 1 left_leaf.0 (λ e. absurd (omega arith)) keeps3
          (shown_later (direct pm1) (direct pm2) 3 1 left_leaf.0 (λ e. absurd (omega arith)) keeps2
            a),
      later 3 right_leaf.0 (λ e. absurd (omega arith)) keeps3 b,
      c,
    )

abbrev pub tree : Tree
tree = record {
  store = direct pm3;
  root_id = 2;
  entry_size = 16;
  unique = false;
  page_splits = 0;
  page_merges = 0;
}

abbrev pub pages : PageSet
pages id = true

-- The pages under the root.
abbrev pub below : PageSet
below id = not (id == 2)

abbrev pub left_pages : PageSet
left_pages id = id == 1

abbrev pub right_pages : PageSet
right_pages id = id == 3

pub tree-IsOrdered : IsOrdered tree 1 rows pages
tree-IsOrdered =
    let (left_shown, right_shown, root_shown) = pages_shown in
    record {
      valid = tt;
      shape = (
        root.0,
        branches,
        below,
        root_shown,
        root.1,
        refl,
        refl,
        λ id h. refl,
        (
          left_rows,
          right_rows,
          left_pages,
          right_pages,
          refl,
          (tt, tt),
          subst (λ c. IsTree (direct pm3) 0 c none (some (pos 0)) left_rows left_pages) (sym root.3)
              (
                left_leaf.0,
                left_shown,
                record {
                  kind = left_leaf.3;
                  stored = left_leaf.1;
                  range = ((tt, omega arith), tt);
                },
                refl,
              ),
          (
            right_leaf.0,
            right_shown,
            record { kind = right_leaf.3; stored = right_leaf.1; range = ((omega arith, tt), tt) },
            refl,
          ),
          λ id h. ground arith,
          λ id h. ground arith,
          λ id h. ground arith,
        ),
      );
    }
