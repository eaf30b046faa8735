-- ===== src/Tests/Pages.antt =====
-- Pages of node and page code that hold one or two entries.
use index_lab.Bytes.{uint64, be_decode}
use index_lab.Key.{compare_keys}
use index_lab.Node.Entry.{Sized}
use index_lab.Node.Find.{IsSorted, IsPlace, find_key_index-IsPlace}
use index_lab.Node.Merges.{IsMerged, merge_leaf-IsMerged, merge_leaf-split_leaf}
use index_lab.Node.SplitInternal.{IsInternalSplit, split_internal-IsInternalSplit}
use index_lab.Node.Splits.{IsLeafSplit, split_leaf-IsLeafSplit}
use index_lab.Node.{Split, merge_leaf, find_key_index, split_leaf, split_internal}
use index_lab.Page.{
  Page, new_leaf_page, insert_entry, delete_entry, has_space_for, next_leaf_page_id,
}
use index_lab.Page.Delete.{Untouched, delete_entry-Layout}
use index_lab.Page.Header.{SameHeader-links, new_leaf_page-Layout}
use index_lab.Page.Insert.{insert_entry-Layout}
use index_lab.Page.Layout.{Layout, SameHeader, SameHeader-trans, has_space_for-Layout}
use index_lab.Prelude.{ℕ, zero, suc, ◌≡◌, refl, ◌∙◌, Bool, false, some, List, [], ◌∷◌, drop, arith}

-- Two entries with keys of one byte.
abbrev first_entry : List ℕ
first_entry = 5 ∷ 0 ∷ 0 ∷ 0 ∷ 0 ∷ 0 ∷ 0 ∷ 0 ∷ 9 ∷ []

abbrev second_entry : List ℕ
second_entry = 7 ∷ 0 ∷ 0 ∷ 0 ∷ 0 ∷ 0 ∷ 0 ∷ 0 ∷ 4 ∷ []

abbrev two_entries : List (List ℕ)
two_entries = first_entry ∷ second_entry ∷ []

abbrev leaf_0 : Page
leaf_0 = new_leaf_page 3

leaf_0-Layout : Layout leaf_0 []
leaf_0-Layout = (new_leaf_page-Layout 3).0

abbrev leaf_1 : Page
leaf_1 = (insert_entry-Layout leaf_0 [] 0 second_entry leaf_0-Layout (omega arith) (omega arith)).0

insert_entry-Layout_example :
    (q : Page) × (insert_entry leaf_0 0 second_entry ≡ some q)
    × Layout q (second_entry ∷ [])
    × SameHeader leaf_0 q
insert_entry-Layout_example =
    insert_entry-Layout leaf_0 [] 0 second_entry leaf_0-Layout (omega arith) (omega arith)

leaf_1-Layout : Layout leaf_1 (second_entry ∷ [])
leaf_1-Layout =
    (insert_entry-Layout leaf_0 [] 0 second_entry leaf_0-Layout (omega arith) (omega arith)).2

abbrev leaf_2 : Page
leaf_2 =
    (insert_entry-Layout leaf_1 (second_entry ∷ []) 0 first_entry leaf_1-Layout (omega arith)
      (omega arith)).0

leaf_2-Layout : Layout leaf_2 two_entries
leaf_2-Layout =
    (insert_entry-Layout leaf_1 (second_entry ∷ []) 0 first_entry leaf_1-Layout (omega arith)
      (omega arith)).2

delete_entry-Layout_example :
    (q : Page) × (delete_entry leaf_2 0 ≡ some q)
    × Layout q (second_entry ∷ [])
    × SameHeader leaf_2 q
    × Untouched 0 2 leaf_2 q
delete_entry-Layout_example = delete_entry-Layout leaf_2 two_entries leaf_2-Layout 0

has_space_for-Layout_example : has_space_for leaf_2 5000 ≡ false
has_space_for-Layout_example = has_space_for-Layout leaf_2 two_entries 5000 leaf_2-Layout

two_entries-Sized : Sized 1 two_entries
two_entries-Sized zero h = refl
two_entries-Sized (suc zero) h = refl
two_entries-Sized (suc (suc i)) h = absurd (omega (arith, h))

two_entries-IsSorted : IsSorted 1 two_entries
unfolding compare_keys
two_entries-IsSorted zero zero le h e = cc e
two_entries-IsSorted zero (suc zero) le h e = cc e
two_entries-IsSorted (suc zero) zero le h e = absurd (omega (arith, le))
two_entries-IsSorted (suc zero) (suc zero) le h e = cc e
two_entries-IsSorted (suc (suc i)) k le h e = absurd (omega (arith, le, h))
two_entries-IsSorted i (suc (suc k)) le h e = absurd (omega (arith, h))

find_key_index-IsPlace_example :
    (i : ℕ) × (found : Bool) × (find_key_index leaf_2 (7 ∷ []) ≡ some (i, found))
    × IsPlace 1 two_entries (7 ∷ []) i found
find_key_index-IsPlace_example =
    find_key_index-IsPlace leaf_2 two_entries 1 (7 ∷ []) leaf_2-Layout two_entries-Sized
      two_entries-IsSorted

-- Insertion keeps the links and the ID of a page.
leaf_2-SameHeader : SameHeader leaf_0 leaf_2
leaf_2-SameHeader =
    SameHeader-trans
      (insert_entry-Layout leaf_0 [] 0 second_entry leaf_0-Layout (omega arith) (omega arith)).3
      (insert_entry-Layout leaf_1 (second_entry ∷ []) 0 first_entry leaf_1-Layout (omega arith)
        (omega arith)).3

leaf_2_links : (next_leaf_page_id leaf_2 ≡ 0) × (leaf_2.id ≡ 3)
leaf_2_links =
    let (_, next, _, _) = SameHeader-links leaf_0 leaf_2 leaf_2-SameHeader in
    let (_, _, no_next, _, own) = new_leaf_page-Layout 3 in
    (next ∙ no_next, leaf_2-SameHeader.id ∙ own)

split_leaf-IsLeafSplit_example :
    (r : Split) × (split_leaf leaf_2 (new_leaf_page 9) ≡ some r)
    × IsLeafSplit leaf_2 (new_leaf_page 9) two_entries 1 r
split_leaf-IsLeafSplit_example =
    split_leaf-IsLeafSplit leaf_2 (new_leaf_page 9) two_entries 1 leaf_2-Layout two_entries-Sized
      (omega arith) (new_leaf_page-Layout 9).0 (omega (arith, leaf_2_links.1))
      (omega (arith, (new_leaf_page-Layout 9).4)) (omega (arith, leaf_2_links.0))

merge_leaf-IsMerged_example :
    (q r : Page) × (merge_leaf leaf_1 leaf_2 ≡ some (q, r))
    × IsMerged leaf_1 leaf_2 (second_entry ∷ two_entries) q r
merge_leaf-IsMerged_example =
    merge_leaf-IsMerged leaf_1 leaf_2 (second_entry ∷ []) two_entries leaf_1-Layout leaf_2-Layout
      (omega arith) (omega (arith, leaf_2_links.0))

merge_leaf-split_leaf_example :
    (s : Split) × (q r : Page) × (split_leaf leaf_2 (new_leaf_page 9) ≡ some s)
    × (merge_leaf s.old_page s.new_page ≡ some (q, r))
    × IsMerged leaf_2 leaf_2 two_entries q r
merge_leaf-split_leaf_example =
    merge_leaf-split_leaf leaf_2 (new_leaf_page 9) two_entries 1 leaf_2-Layout two_entries-Sized
      (omega arith) (new_leaf_page-Layout 9).0 (omega (arith, leaf_2_links.1))
      (omega (arith, (new_leaf_page-Layout 9).4)) (omega (arith, leaf_2_links.0))

-- The second entry has the child 4.
second_child : uint64 (drop 1 second_entry) ≡ some 4
unfolding uint64 be_decode
second_child = refl

split_internal-IsInternalSplit_example :
    (r : Split) × (split_internal leaf_2 (new_leaf_page 9) ≡ some r)
    × IsInternalSplit leaf_2 (new_leaf_page 9) two_entries 1 4 r
split_internal-IsInternalSplit_example =
    split_internal-IsInternalSplit leaf_2 (new_leaf_page 9) two_entries 1 4 leaf_2-Layout
      two_entries-Sized (omega arith) second_child (omega arith)
