-- ===== src/Node/Merges.antt =====
-- `mergeLeaf` on well-formed pages, and that it undoes `splitLeaf`.
use index_lab.Node.{Split, append_entries, merge_leaf, split_leaf}
use index_lab.Node.Entry.{Sized}
use index_lab.Node.Move.{append_all-Layout, append_entries-append_all, delete_down-Layout}
use index_lab.Node.Splits.{split_leaf-IsLeafSplit}
use index_lab.Page.{
  Page, page_size, next_leaf_page_id, prev_leaf_page_id, set_next_leaf_page_id, page_type,
}
use index_lab.Page.Header.{SameHeader-links, set_next_leaf_page_id-Layout}
use index_lab.Page.Layout.{Layout, total, total-append}
use index_lab.Page.Suffix.{Suffix-whole}
use index_lab.Prelude.{
  ℕ, ◌+◌, ◌*◌, ◌/◌, ◌^◌, ◌≤◌, ◌<◌, ◌≡◌, sym, ap, ◌∙◌, some, List, [], ◌++◌, length, take, drop,
  take-append-drop, length-append, arith,
}
use mathlib.Core.Path.{subst}

-- What `mergeLeaf` promises: the left page has the entries of both and the link behind the right
-- page, and the right page is empty.
pub record IsMerged (left right : Page) (es : List (List ℕ)) (q r : Page) : Type 0 where
  pub merged : Layout q es
  pub emptied : Layout r []
  pub id : q.id ≡ left.id
  pub kind : page_type q ≡ page_type left
  pub next : next_leaf_page_id q ≡ next_leaf_page_id right
  pub prev : prev_leaf_page_id q ≡ prev_leaf_page_id left

module _ (left right : Page) (es fs : List (List ℕ)) (l : Layout left es) (m : Layout right fs)
    (fit : 21 + (length es + length fs) * 4 + (total es + total fs) ≤ page_size)
    (small : next_leaf_page_id right < 2 ^ 64) where
  -- Merging two well-formed leaves whose entries fit one page does not panic. It appends the
  -- entries of the right page to those of the left one, takes over the right page's next link,
  -- keeps the left page's ID, type and left link, and empties the right page.
  pub merge_leaf-IsMerged :
      (q r : Page) × (merge_leaf left right ≡ some (q, r)) × IsMerged left right (es ++ fs) q r
  unfolding merge_leaf
  merge_leaf-IsMerged =
      let (left', filled, l', same) = append_all-Layout fs left es l fit in
      let (right', cut, m', _) = delete_down-Layout (length fs) 0 right fs m (omega arith) in
      let (_, _, prev_same, _) = SameHeader-links left left' same in
      let (next_set, prev_kept, type_kept, l'', id_kept) =
        set_next_leaf_page_id-Layout left' (es ++ fs) (next_leaf_page_id right) l' small in
      let moved : append_entries left right (length fs) 0 ≡ some left' =
        append_entries-append_all fs left right fs 0 m (Suffix-whole fs) ∙ filled in
      (
        set_next_leaf_page_id left' (next_leaf_page_id right),
        right',
        ground (arith, m.count, moved, cut),
        record {
          merged = l'';
          emptied = m';
          id = id_kept ∙ same.id;
          kind = type_kept ∙ (SameHeader-links left left' same).0;
          next = next_set;
          prev = prev_kept ∙ prev_same;
        },
      )

total-take-drop : (n : ℕ) (es : List (List ℕ)) → total (take n es) + total (drop n es) ≡ total es
total-take-drop n es = sym (total-append (take n es) (drop n es)) ∙ ap total (take-append-drop n es)

length-take-drop :
    (n : ℕ) (es : List (List ℕ)) → length (take n es) + length (drop n es) ≡ length es
length-take-drop n es =
    sym (length-append (take n es) (drop n es)) ∙ ap length (take-append-drop n es)

module _ (old fresh : Page) (es : List (List ℕ)) (w : ℕ) (l : Layout old es) (sized : Sized w es)
    (two : 2 ≤ length es) (empty : Layout fresh []) (old_small : old.id < 2 ^ 64)
    (fresh_small : fresh.id < 2 ^ 64) (next_small : next_leaf_page_id old < 2 ^ 64) where
  -- Merging the two halves of a leaf that was split, a well-formed page with two entries or more
  -- and keys of one width, gives back the entries, the ID, the type and both links of the leaf, and
  -- neither step panics.
  pub merge_leaf-split_leaf :
      (s : Split) × (q r : Page) × (split_leaf old fresh ≡ some s)
      × (merge_leaf s.old_page s.new_page ≡ some (q, r))
      × IsMerged old old es q r
  merge_leaf-split_leaf =
      let (s, cut, parts) =
        split_leaf-IsLeafSplit old fresh es w l sized two empty old_small fresh_small next_small in
      let mid = length es / 2 in
      let (q, r, run, done) =
        merge_leaf-IsMerged s.old_page s.new_page (take mid es) (drop mid es) parts.left parts.right
          (omega (arith, length-take-drop mid es, total-take-drop mid es, l.fits))
          (omega (arith, parts.new_next)) in
      (
        s,
        q,
        r,
        cut,
        run,
        record {
          merged = subst (Layout q) (take-append-drop mid es) done.merged;
          emptied = done.emptied;
          id = done.id ∙ parts.old_id;
          kind = done.kind ∙ parts.old_type;
          next = done.next ∙ parts.new_next;
          prev = done.prev ∙ parts.old_prev;
        },
      )
