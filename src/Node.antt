-- ===== src/Node.antt =====
-- The node operations of internal/btree/node.go: searches in a page, splits, merges and
-- redistributions between two pages.
pub mod Entry
pub mod Move
pub mod Splits
pub mod SplitInternal
pub mod Merges
pub mod Find
pub mod Child
use Prim.Native.Nat.{Ordering}
use index_lab.Bytes.{be_bytes, uint64}
use index_lab.Key.{compare_keys}
use index_lab.Page.{
  Page, PageId, word16, num_entries, get_slot, get_entry, slice, insert_entry, delete_entry,
  leftmost_child_page_id, set_leftmost_child_page_id, next_leaf_page_id, set_next_leaf_page_id,
  set_prev_leaf_page_id, new_internal_page,
}
use index_lab.Prelude.{
  ℕ, zero, suc, ◌+◌, ◌-◌, ◌/◌, Bool, true, false, Option, none, some, List, [], ◌∷◌, ◌++◌, length,
  take, drop, leb, ltb, ◌==◌, if◌then◌else◌, ◌>>=◌,
}
use index_lab.Prelude.Int.{ℤ, pos, negsuc}
use index_lab.Search.{search}

unfoldable pub encode_child_id : PageId → List ℕ
encode_child_id id = be_bytes 8 id

-- `len(entry) - 8`, an `int` that is negative on a short entry.
abbrev pub key_part : List ℕ → ℤ
key_part entry = if leb 8 (length entry) then pos (length entry - 8) else negsuc (7 - length entry)

-- The page is never nil where this is called.
unfoldable pub entry_key_len : Page → Option ℤ
entry_key_len p =
    if num_entries p == 0 then some (pos 8) else do entry ← get_entry p 0; some (key_part entry)

-- `entry[n:]` of a slice, which panics outside it.
unfoldable pub suffix : List ℕ → ℤ → Option (List ℕ)
suffix entry (pos n) = if leb n (length entry) then some (drop n entry) else none
suffix entry (negsuc n) = none

-- `entry[:n]` of a slice of its own, which is never asked for more than its length.
unfoldable pub prefix : List ℕ → ℤ → Option (List ℕ)
prefix entry (pos n) = if leb n (length entry) then some (take n entry) else none
prefix entry (negsuc n) = none

-- `p.GetEntry(i)[:n]`: the entry is a slice of the page, which may be extended up to its end.
unfoldable pub entry_prefix : Page → ℕ → ℤ → Option (List ℕ)
entry_prefix p i (pos n) = do
  entry ← get_entry p i
  s ← get_slot p i
  slice p s.offset (s.offset + n)
entry_prefix p i (negsuc n) = none

abbrev pub is_gt : Ordering → Bool
is_gt o = elim o [ Ordering.gt ↦ true | _ ↦ false ]

-- `CompareKeys(…) >= 0`.
abbrev pub is_ge : Ordering → Bool
is_ge o = elim o [ Ordering.lt ↦ false | _ ↦ true ]

abbrev pub is_eq : Ordering → Bool
is_eq o = elim o [ Ordering.eq ↦ true | _ ↦ false ]

-- `PageID(binary.BigEndian.Uint64(p.GetEntry(i)[keyLen:]))`.
unfoldable pub child_at : Page → ℤ → ℕ → Option PageId
child_at p key_len i = do
  entry ← get_entry p i
  child_bytes ← suffix entry key_len
  uint64 child_bytes

unfoldable pub find_child_page_id : Page → List ℕ → Option PageId
find_child_page_id p target =
    let n = num_entries p in
    if n == 0 then some (leftmost_child_page_id p) else do
      key_len ← entry_key_len p
      idx ←
          search n (λ i. do
            key ← entry_prefix p (word16 i) key_len
            some (is_gt (compare_keys key target)))
      if idx == 0 then some (leftmost_child_page_id p) else child_at p key_len (word16 (idx - 1))

unfoldable pub find_key_index : Page → List ℕ → Option (ℕ × Bool)
find_key_index p target =
    let n = num_entries p in
    if n == 0 then some (0, false) else do
      key_len ← entry_key_len p
      i ←
          search n (λ i. do
            key ← entry_prefix p (word16 i) key_len
            some (is_ge (compare_keys key target)))
      elim (ltb i n) [
        | true ↦ do
          key ← entry_prefix p (word16 i) key_len
          some (word16 i, is_eq (compare_keys key target))
        | false ↦ some (word16 i, false)
      ]

-- The loop over the entries from `i` on, with `rounds` left.
unfoldable pub find_child_from : Page → ℤ → PageId → ℕ → ℕ → Option (ℕ × Bool)
find_child_from p key_len child zero i = some (0, false)
find_child_from p key_len child (suc rounds) i = do
  page_id ← child_at p key_len i
  elim (page_id == child) [
    | true ↦ some (i, true)
    | false ↦ find_child_from p key_len child rounds (i + 1)
  ]

unfoldable pub find_child_index : Page → PageId → Option (ℕ × Bool)
find_child_index p child =
    if leftmost_child_page_id p == child
    then some (num_entries p, true)
    else do key_len ← entry_key_len p; find_child_from p key_len child (num_entries p) 0

unfoldable pub find_sibling_page_ids : Page → Page → Option (PageId × PageId)
find_sibling_page_ids grandparent node = do
  (idx, _) ← find_child_index grandparent node.id
  let n = num_entries grandparent
  key_len ← entry_key_len grandparent
  elim (idx == n) [
    | true ↦ do right ← child_at grandparent key_len 0; some (0, right)
    | false ↦ do
      left ←
          (if idx == 0
            then some (leftmost_child_page_id grandparent)
            else child_at grandparent key_len (idx - 1))
      right ← (if ltb (word16 (idx + 1)) n then child_at grandparent key_len (idx + 1) else some 0)
      some (left, right)
  ]

-- `NumEntries() - 1`, in `uint16`.
abbrev pub last_index : Page → ℕ
last_index p = word16 (num_entries p + 65535)

-- The functions below change their pages in place: they return each page that they change.
pub record Redistributed : Type 0 where
  pub separator : List ℕ
  pub underflowing : Page
  pub sibling : Page

unfoldable pub redistribute_from_left : Page → Page → Option Redistributed
redistribute_from_left underflowing left = do
  entry ← get_entry left (last_index left)
  left' ← delete_entry left (last_index left)
  underflowing' ← insert_entry underflowing 0 entry
  separator ← prefix entry (key_part entry)
  some (record { separator = separator; underflowing = underflowing'; sibling = left' })

unfoldable pub redistribute_from_right : Page → Page → Option Redistributed
redistribute_from_right underflowing right = do
  entry ← get_entry right 0
  right' ← delete_entry right 0
  underflowing' ← insert_entry underflowing (num_entries underflowing) entry
  separator ← entry_prefix right' 0 (key_part entry)
  some (record { separator = separator; underflowing = underflowing'; sibling = right' })

-- `left.InsertEntry(left.NumEntries(), …)` for the entries of `right` from `i` on.
unfoldable pub append_entries : Page → Page → ℕ → ℕ → Option Page
append_entries left right zero i = some left
append_entries left right (suc rounds) i = do
  entry ← get_entry right i
  left' ← insert_entry left (num_entries left) entry
  append_entries left' right rounds (i + 1)

-- `for i := …; i >= low; i-- { p.DeleteEntry(i) }` for `rounds` rounds, the last one at `low`.
unfoldable pub delete_down : Page → ℕ → ℕ → Option Page
delete_down p low zero = some p
delete_down p low (suc rounds) = do p' ← delete_entry p (low + rounds); delete_down p' low rounds

unfoldable pub merge_leaf : Page → Page → Option (Page × Page)
merge_leaf left right = do
  left' ← append_entries left right (num_entries right) 0
  right' ← delete_down right 0 (num_entries right)
  some (set_next_leaf_page_id left' (next_leaf_page_id right), right')

unfoldable pub merge_internal : Page → Page → List ℕ → Option Page
merge_internal left right old_separator = do
  left' ←
      insert_entry left (num_entries left)
        (old_separator ++ encode_child_id (leftmost_child_page_id right))
  append_entries left' right (num_entries right) 0

unfoldable pub redistribute_internal_from_left : Page → Page → List ℕ → Option Redistributed
redistribute_internal_from_left underflowing left old_separator = do
  last_entry ← get_entry left (last_index left)
  moved_child_bytes ← suffix last_entry (pos 8)
  separator ← prefix last_entry (key_part last_entry)
  left' ← delete_entry left (last_index left)
  underflowing' ←
      insert_entry underflowing 0
        (old_separator ++ encode_child_id (leftmost_child_page_id underflowing))
  moved_child ← uint64 moved_child_bytes
  some (record {
    separator = separator;
    underflowing = set_leftmost_child_page_id underflowing' moved_child;
    sibling = left';
  })

unfoldable pub redistribute_internal_from_right : Page → Page → List ℕ → Option Redistributed
redistribute_internal_from_right underflowing right old_separator = do
  first_entry ← get_entry right 0
  first_child_bytes ← suffix first_entry (pos 8)
  separator ← prefix first_entry (key_part first_entry)
  right' ← delete_entry right 0
  underflowing' ←
      insert_entry underflowing (num_entries underflowing)
        (old_separator ++ encode_child_id (leftmost_child_page_id right))
  first_child ← uint64 first_child_bytes
  some (record {
    separator = separator;
    underflowing = underflowing';
    sibling = set_leftmost_child_page_id right' first_child;
  })

pub record Split : Type 0 where
  pub separator : List ℕ
  pub old_page : Page
  pub new_page : Page

-- Copies of the entries from `i` on, with `rounds` left.
unfoldable pub copy_entries : Page → ℕ → ℕ → Option (List (List ℕ))
copy_entries p zero i = some []
copy_entries p (suc rounds) i = do
  entry ← get_entry p i
  rest ← copy_entries p rounds (i + 1)
  some (entry ∷ rest)

-- `p.InsertEntry(p.NumEntries(), entry)` for each entry.
unfoldable pub append_all : Page → List (List ℕ) → Option Page
append_all p [] = some p
append_all p (entry ∷ entries) = do p' ← insert_entry p (num_entries p) entry; append_all p' entries

-- `fresh` is what `allocateFn` returns. With fewer than two entries `mid` is 0, and the loop
-- `i >= mid` on an unsigned `i` would not end: there is no result.
unfoldable pub split_leaf : Page → Page → Option Split
split_leaf old_page fresh = do
  let n = num_entries old_page
  let mid = n / 2
  first ← get_entry old_page 0
  moving ← copy_entries old_page (n - mid) mid
  old_page' ← (if mid == 0 then none else delete_down old_page mid (n - mid))
  new_page ← append_all fresh moving
  let new_page' =
      set_next_leaf_page_id (set_prev_leaf_page_id new_page old_page'.id)
        (next_leaf_page_id old_page')
  separator ← entry_prefix new_page' 0 (key_part first)
  some (record {
    separator = separator;
    old_page = set_next_leaf_page_id old_page' new_page'.id;
    new_page = new_page';
  })

unfoldable pub split_internal : Page → Page → Option Split
split_internal old_page fresh = do
  let n = num_entries old_page
  let mid = n / 2
  separator_len ← entry_key_len old_page
  middle_entry ← get_entry old_page mid
  separator ← prefix middle_entry separator_len
  child_bytes ← suffix middle_entry separator_len
  middle_child ← uint64 child_bytes
  moving ← copy_entries old_page (n - (mid + 1)) (mid + 1)
  new_page ← append_all (new_internal_page fresh.id middle_child) moving
  old_page' ← (if mid == 0 then none else delete_down old_page mid (n - mid))
  some (record { separator = separator; old_page = old_page'; new_page = new_page })
