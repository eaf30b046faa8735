-- ===== src/Stats/Children.antt =====
-- `childPageIDs` on a well-formed internal page.
use index_lab.Node.{child_at, entry_key_len}
use index_lab.Node.Child.{
  Branch, encode_branches, AreBranches, children, length-encode_branches, encode_branches-Sized,
  child_bytes,
}
use index_lab.Node.Entry.{entry_key_len-Layout, child_at-Layout}
use index_lab.Page.{Page, PageId, num_entries, leftmost_child_page_id}
use index_lab.Page.Layout.{Layout}
use index_lab.Prelude.{
  ℕ, suc, ◌+◌, ◌<◌, ◌≡◌, refl, ap, ◌∙◌, some, List, [], ◌∷◌, length, get_or, arith,
}
use index_lab.Prelude.Int.{pos}
use index_lab.Stats.{child_ids_from, child_page_ids}
use index_lab.Tree.Shape.{IsInternalNode}

-- The children from branch `i` on.
abbrev pub IsTail : List PageId → ℕ → List PageId → Type 0
IsTail ids i rest =
    (i + length rest ≡ length ids)
    × ((k : ℕ) → k < length rest → get_or ids (i + k) 0 ≡ get_or rest k 0)

pub length-children : (branches : List Branch) → length (children branches) ≡ length branches
length-children [] = refl
length-children (b ∷ branches) = ap suc (length-children branches)

pub child_ids_from-children :
    (p : Page) (branches : List Branch) (rest : List PageId) (i : ℕ)
    → Layout p (encode_branches branches)
    → AreBranches branches
    → IsTail (children branches) i rest
    → child_ids_from p (pos 8) (length rest) i ≡ some rest
unfolding child_ids_from
child_ids_from-children p branches [] i l a tail = refl
child_ids_from-children p branches (c ∷ rest) i l a (size, same) =
    let inside : i < length branches = omega (arith, size, length-children branches) in
    let here : get_or (children branches) i 0 ≡ c =
      ap (λ k. get_or (children branches) k 0) (omega arith) ∙ same 0 (omega arith) in
    let child : child_at p (pos 8) i ≡ some c =
      child_at-Layout p (encode_branches branches) 8 l (encode_branches-Sized branches) i
        (omega (arith, inside, length-encode_branches branches))
      ∙ child_bytes branches i a inside
      ∙ ap some here in
    let later = child_ids_from-children p branches rest (i + 1) l a (
      omega (arith, size),
      λ k h. ap (λ j. get_or (children branches) j 0) (omega arith) ∙ same (suc k) (omega arith),
    ) in
    rw (child, later)

pub key_len_8 :
    (p : Page) (branches : List Branch)
    → Layout p (encode_branches branches)
    → entry_key_len p ≡ some (pos 8)
unfolding entry_key_len
key_len_8 p [] l = ground (arith, l.count)
key_len_8 p (b ∷ branches) l =
    entry_key_len-Layout p (encode_branches (b ∷ branches)) 8 l
      (encode_branches-Sized (b ∷ branches)) (omega arith)

-- `childPageIDs` answers the leftmost child and those of the branches.
pub child_page_ids-children :
    (p : Page) (branches : List Branch)
    → IsInternalNode p branches
    → child_page_ids p ≡ some (leftmost_child_page_id p ∷ children branches)
unfolding child_page_ids
child_page_ids-children p branches v =
    let key_len : entry_key_len p ≡ some (pos 8) = key_len_8 p branches v.stored in
    let count : num_entries p ≡ length (children branches) =
      omega (arith, v.stored.count, length-encode_branches branches, length-children branches) in
    let ids =
      child_ids_from-children p branches (children branches) 0 v.stored v.encoded
        (omega arith, λ k h. ap (λ j. get_or (children branches) j 0) (omega arith)) in
    rw (key_len, count, ids)
