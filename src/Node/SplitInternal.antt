-- ===== src/Node/SplitInternal.antt =====
-- `splitInternal` on well-formed pages.
use index_lab.Bytes.{uint64}
use index_lab.Node.{Split, split_internal, copy_entries, prefix, suffix}
use index_lab.Node.Entry.{Sized, entry_key_len-Layout}
use index_lab.Node.Move.{append_all-Layout, copy_entries-Layout, delete_down-Layout}
use index_lab.Node.Splits.{total-drop-le}
use index_lab.Page.{
  Page, PageId, new_internal_page, leftmost_child_page_id, page_type, internal_page,
}
use index_lab.Page.Header.{SameHeader-links, new_internal_page-Layout}
use index_lab.Page.Layout.{Layout, SameHeader, get_entry-Layout}
use index_lab.Page.Suffix.{Suffix-drop}
use index_lab.Prelude.{
  ◌==◌, false, ℕ, ◌+◌, ◌-◌, ◌/◌, ◌^◌, ◌≤◌, ◌<◌, ◌≡◌, refl, ◌∙◌, List, [], some, length, get_or,
  length-drop, take, drop, arith,
}
use index_lab.Prelude.Int.{pos}
use mathlib.Core.Path.{subst}

-- What `splitInternal` promises: the entries before the middle one stay, those behind it move, and the
-- middle one is taken apart into the separator and the leftmost child of the new page.
pub record IsInternalSplit (old fresh : Page) (es : List (List ℕ)) (w : ℕ) (child : PageId)
    (r : Split) : Type 0 where
  pub left : Layout r.old_page (take (length es / 2) es)
  pub right : Layout r.new_page (drop (length es / 2 + 1) es)
  pub separator : r.separator ≡ take w (get_or es (length es / 2) [])
  pub leftmost : leftmost_child_page_id r.new_page ≡ child
  pub kept : SameHeader old r.old_page
  pub new_id : r.new_page.id ≡ fresh.id
  pub new_type : page_type r.new_page ≡ internal_page

module _ (old fresh : Page) (es : List (List ℕ)) (w : ℕ) (child : PageId) (l : Layout old es)
    (sized : Sized w es) (two : 2 ≤ length es)
    (pointer : uint64 (drop w (get_or es (length es / 2) [])) ≡ some child)
    (small : child < 2 ^ 64) where
  abbrev mid : ℕ
  mid = length es / 2

  abbrev moved : List (List ℕ)
  moved = drop (mid + 1) es

  abbrev middle : List ℕ
  middle = get_or es mid []

  moved-length : length moved ≡ length es - (mid + 1)
  moved-length = length-drop (mid + 1) es

  copied : copy_entries old (length es - (mid + 1)) (mid + 1) ≡ some moved
  copied =
      subst (λ k. copy_entries old k (mid + 1) ≡ some moved) moved-length
        (copy_entries-Layout moved old es (mid + 1) l (Suffix-drop (mid + 1) es (omega arith)))

  middle_parts :
      (prefix middle (pos w) ≡ some (take w middle))
      × (suffix middle (pos w) ≡ some (drop w middle))
  unfolding prefix suffix
  middle_parts = let size = sized mid (omega arith) in (ground (arith, size), ground (arith, size))

  -- `splitInternal` of a well-formed page with two entries or more, all with keys of one width, the
  -- middle one with a 64-bit child, does not panic. The old page keeps its header and the entries
  -- before the middle one, the separator is the middle key, and the new page is an internal page
  -- with the ID of the fresh one, the middle child as its leftmost child and the entries behind the
  -- middle one.
  pub split_internal-IsInternalSplit :
      (r : Split) × (split_internal old fresh ≡ some r) × IsInternalSplit old fresh es w child r
  unfolding split_internal
  split_internal-IsInternalSplit =
      let (empty, kind, leftmost, own) = new_internal_page-Layout fresh.id child small in
      let (old', cut, l_old, h_old) =
        delete_down-Layout (length es - mid) mid old es l (omega arith) in
      let (new, filled, l_new, h_new) =
        append_all-Layout moved (new_internal_page fresh.id child) [] empty
          (omega (arith, moved-length, total-drop-le (mid + 1) es, l.fits)) in
      let (new_type, _, _, new_child) =
        SameHeader-links (new_internal_page fresh.id child) new h_new in
      let positive : (mid == 0) ≡ false = ground arith in
      let (head, tail) = middle_parts in
      (
        record { separator = take w middle; old_page = old'; new_page = new },
        ground (
          arith,
          l.count,
          entry_key_len-Layout old es w l sized (omega arith),
          get_entry-Layout old es mid l (omega arith),
          head,
          tail,
          pointer,
          copied,
          filled,
          positive,
          cut,
        ),
        record {
          left = l_old;
          right = l_new;
          separator = refl;
          leftmost = new_child ∙ leftmost;
          kept = h_old;
          new_id = h_new.id ∙ own;
          new_type = new_type ∙ kind;
        },
      )
