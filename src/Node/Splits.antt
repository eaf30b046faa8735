-- ===== src/Node/Splits.antt =====
-- `splitLeaf` on well-formed pages.
use index_lab.Node.{Split, split_leaf, append_all, copy_entries, delete_down, key_part}
use index_lab.Node.Entry.{Sized, key_part_lem, entry_prefix-Layout}
use index_lab.Node.Move.{append_all-Layout, copy_entries-Layout, delete_down-Layout}
use index_lab.Page.{
  Page, next_leaf_page_id, prev_leaf_page_id, set_next_leaf_page_id, set_prev_leaf_page_id,
  page_type,
}
use index_lab.Page.Header.{
  SameHeader-links, set_next_leaf_page_id-Layout, set_prev_leaf_page_id-Layout,
}
use index_lab.Page.Layout.{Layout, SameHeader, total, get_entry-Layout}
use index_lab.Page.Suffix.{Suffix-drop, get_or-drop}
use index_lab.Prelude.{
  ◌==◌, false, ℕ, zero, suc, ◌+◌, ◌-◌, ◌/◌, ◌^◌, ◌≤◌, ◌<◌, ◌≡◌, sym, ap, ◌∙◌, List, [], ◌∷◌, some,
  length, get_or, length-drop, take, drop, arith,
}
use index_lab.Prelude.Int.{pos}
use mathlib.Core.Path.{subst}

-- What `splitLeaf` promises of the pages that it was given and of its result: the entries are cut
-- in the middle, the separator is the first key on the right, and the new page is linked in behind
-- the old one.
pub record IsLeafSplit (old fresh : Page) (es : List (List ℕ)) (w : ℕ) (r : Split) : Type 0 where
  pub left : Layout r.old_page (take (length es / 2) es)
  pub right : Layout r.new_page (drop (length es / 2) es)
  pub separator : r.separator ≡ take w (get_or es (length es / 2) [])
  pub old_id : r.old_page.id ≡ old.id
  pub new_id : r.new_page.id ≡ fresh.id
  pub old_next : next_leaf_page_id r.old_page ≡ fresh.id
  pub old_prev : prev_leaf_page_id r.old_page ≡ prev_leaf_page_id old
  pub new_next : next_leaf_page_id r.new_page ≡ next_leaf_page_id old
  pub new_prev : prev_leaf_page_id r.new_page ≡ old.id
  pub old_type : page_type r.old_page ≡ page_type old
  pub new_type : page_type r.new_page ≡ page_type fresh

pub total-drop-le : (n : ℕ) (es : List (List ℕ)) → total (drop n es) ≤ total es
total-drop-le zero es = omega arith
total-drop-le (suc n) [] = omega arith
total-drop-le (suc n) (x ∷ es) = omega (arith, total-drop-le n es)

module _ (old fresh : Page) (es : List (List ℕ)) (w : ℕ) (l : Layout old es) (sized : Sized w es)
    (two : 2 ≤ length es) (empty : Layout fresh []) (old_small : old.id < 2 ^ 64)
    (fresh_small : fresh.id < 2 ^ 64) (next_small : next_leaf_page_id old < 2 ^ 64) where
  abbrev mid : ℕ
  mid = length es / 2

  mid_positive : (mid == 0) ≡ false
  mid_positive = ground arith

  abbrev moved : List (List ℕ)
  moved = drop mid es

  moved-length : length moved ≡ length es - mid
  moved-length = length-drop mid es

  moved-Sized : Sized w moved
  moved-Sized i h =
      ap length (sym (get_or-drop mid i es)) ∙ sized (mid + i) (omega (arith, moved-length))

  copied : copy_entries old (length es - mid) mid ≡ some moved
  copied =
      subst (λ k. copy_entries old k mid ≡ some moved) moved-length
        (copy_entries-Layout moved old es mid l (Suffix-drop mid es (omega arith)))

  first_separator : take w (get_or moved 0 []) ≡ take w (get_or es mid [])
  first_separator =
      let start : mid + 0 ≡ mid = omega arith in
      ap (take w) (sym (get_or-drop mid 0 es) ∙ ap (λ t. get_or es t []) start)

  -- The two pages once the entries are moved, and before they are linked.
  module _ (old' new : Page) (cut : delete_down old mid (length es - mid) ≡ some old')
      (filled : append_all fresh moved ≡ some new) (l_old : Layout old' (take mid es))
      (l_new : Layout new moved) (h_old : SameHeader old old') (h_new : SameHeader fresh new) where
    abbrev linked : Page
    linked = set_next_leaf_page_id (set_prev_leaf_page_id new old'.id) (next_leaf_page_id old')

    abbrev result : Split
    result = record {
      separator = take w (get_or moved 0 []);
      old_page = set_next_leaf_page_id old' linked.id;
      new_page = linked;
    }

    linked_lem :
        Layout linked moved
        × (next_leaf_page_id linked ≡ next_leaf_page_id old)
        × (prev_leaf_page_id linked ≡ old.id)
        × (page_type linked ≡ page_type fresh)
        × (linked.id ≡ fresh.id)
    linked_lem =
        let (old_type, old_next, old_prev, _) = SameHeader-links old old' h_old in
        let (new_type, _, _, _) = SameHeader-links fresh new h_new in
        let (prev_set, _, prev_type, l_prev, prev_id) =
          set_prev_leaf_page_id-Layout new moved old'.id l_new (omega (arith, h_old.id)) in
        let (next_set, prev_kept, next_type, l_next, next_id) =
          set_next_leaf_page_id-Layout (set_prev_leaf_page_id new old'.id) moved
            (next_leaf_page_id old') l_prev (omega (arith, old_next)) in
        (
          l_next,
          next_set ∙ old_next,
          prev_kept ∙ prev_set ∙ h_old.id,
          next_type ∙ prev_type ∙ new_type,
          next_id ∙ prev_id ∙ h_new.id,
        )

    split_leaf-result : split_leaf old fresh ≡ some result
    unfolding split_leaf
    split_leaf-result =
        let first = get_or es 0 [] in
        let part : key_part first ≡ pos w = key_part_lem w first (sized 0 (omega arith)) in
        rw (
          l.count,
          get_entry-Layout old es 0 l (omega arith),
          copied,
          mid_positive,
          cut,
          filled,
          part,
          entry_prefix-Layout linked moved w linked_lem.0 moved-Sized 0
              (omega (arith, moved-length)),
        )

    result-IsLeafSplit : IsLeafSplit old fresh es w result
    result-IsLeafSplit =
        let (l_link, link_next, link_prev, link_type, link_id) = linked_lem in
        let (old_type, old_next, old_prev, _) = SameHeader-links old old' h_old in
        let (next_set, prev_kept, type_kept, l_cut, id_kept) =
          set_next_leaf_page_id-Layout old' (take mid es) linked.id l_old
            (omega (arith, link_id)) in
        record {
          left = l_cut;
          right = l_link;
          separator = first_separator;
          old_id = id_kept ∙ h_old.id;
          new_id = link_id;
          old_next = next_set ∙ link_id;
          old_prev = prev_kept ∙ old_prev;
          new_next = link_next;
          new_prev = link_prev;
          old_type = type_kept ∙ old_type;
          new_type = link_type;
        }

  -- `splitLeaf` of a well-formed page with two entries or more, all with keys of one width, into a
  -- well-formed empty page does not panic. It cuts the entries in the middle, answers the first key
  -- on the right as the separator, and links the new page in between the old one and the one that
  -- followed; the IDs, the types and the old page's left link stay.
  pub split_leaf-IsLeafSplit :
      (r : Split) × (split_leaf old fresh ≡ some r) × IsLeafSplit old fresh es w r
  split_leaf-IsLeafSplit =
      let (old', cut, l_old, h_old) =
        delete_down-Layout (length es - mid) mid old es l (omega arith) in
      let (new, filled, l_new, h_new) =
        append_all-Layout moved fresh [] empty
          (omega (arith, moved-length, total-drop-le mid es, l.fits)) in
      (
        result old' new cut filled l_old l_new h_old h_new,
        split_leaf-result old' new cut filled l_old l_new h_old h_new,
        result-IsLeafSplit old' new cut filled l_old l_new h_old h_new,
      )
