-- ===== src/Page.antt =====
-- The slotted page of internal/page/page.go: header, slot array and entry bytes in one array of
-- `page_size` bytes.
pub mod Slots
pub mod Shift
pub mod Layout
pub mod Insert
pub mod Header
pub mod Delete
pub mod Suffix
use index_lab.Bytes.{be_bytes, be_decode, read_bytes, write_bytes}
use index_lab.Prelude.{
  ℕ, zero, suc, ◌+◌, ◌-◌, ◌*◌, ◌/◌, ◌%◌, ◌≡◌, Bool, true, false, ◌&&◌, Option, none, some, List, [],
  ◌∷◌, length, take, ltb, leb, ◌==◌, if◌then◌else◌, ◌>>=◌,
}

abbrev pub page_size : ℕ
page_size = 4096

abbrev pub header_size : ℕ
header_size = 21

abbrev pub slot_size : ℕ
slot_size = 4

abbrev pub entry_size : ℕ
entry_size = 16

-- `PageType` is a byte with four named values.
abbrev pub PageType : Type 0
PageType = ℕ

abbrev pub leaf_page : PageType
leaf_page = 0

abbrev pub internal_page : PageType
internal_page = 1

abbrev pub metadata_page : PageType
metadata_page = 2

abbrev pub heap_page : PageType
heap_page = 3

abbrev pub PageId : Type 0
PageId = ℕ

-- `Data [PageSize]byte` is read and written below index `page_size` only.
pub record Page : Type 0 where
  pub id : PageId
  pub bytes : ℕ → ℕ

-- The value of a `uint16` result.
abbrev pub word16 : ℕ → ℕ
word16 n = n % 65536

-- The zero value that `&Page{ID: id}` makes.
unfoldable pub zeroed : PageId → Page
zeroed id = record { id = id; bytes = λ _. 0 }

-- An integer field of `w` bytes at a fixed place in the page.
unfoldable pub get_field : Page → ℕ → ℕ → ℕ
get_field p a w = be_decode (read_bytes p.bytes a w)

unfoldable pub set_field : Page → ℕ → ℕ → ℕ → Page
set_field p a w v = record p { bytes = write_bytes p.bytes a (be_bytes w v) }

unfoldable pub page_type : Page → PageType
page_type p = p.bytes 0

unfoldable pub set_page_type : Page → PageType → Page
set_page_type p t = record p { bytes = write_bytes p.bytes 0 (t ∷ []) }

unfoldable pub root_page_id : Page → PageId
root_page_id p = get_field p 1 8

unfoldable pub set_root_page_id : Page → PageId → Page
set_root_page_id p id = set_field p 1 8 id

unfoldable pub num_entries : Page → ℕ
num_entries p = get_field p 1 2

unfoldable pub set_num_entries : Page → ℕ → Page
set_num_entries p n = set_field p 1 2 n

unfoldable pub next_leaf_page_id : Page → PageId
next_leaf_page_id p = get_field p 13 8

unfoldable pub set_next_leaf_page_id : Page → PageId → Page
set_next_leaf_page_id p id = set_field p 13 8 id

unfoldable pub prev_leaf_page_id : Page → PageId
prev_leaf_page_id p = get_field p 5 8

unfoldable pub set_prev_leaf_page_id : Page → PageId → Page
set_prev_leaf_page_id p id = set_field p 5 8 id

unfoldable pub leftmost_child_page_id : Page → PageId
leftmost_child_page_id p = get_field p 5 8

unfoldable pub set_leftmost_child_page_id : Page → PageId → Page
set_leftmost_child_page_id p id = set_field p 5 8 id

unfoldable pub free_space_offset : Page → ℕ
free_space_offset p = get_field p 3 2

unfoldable pub set_free_space_offset : Page → ℕ → Page
set_free_space_offset p offset = set_field p 3 2 offset

unfoldable pub new_leaf_page : PageId → Page
new_leaf_page id = set_free_space_offset (set_page_type (zeroed id) leaf_page) page_size

unfoldable pub new_heap_page : PageId → Page
new_heap_page id = set_free_space_offset (set_page_type (zeroed id) heap_page) page_size

unfoldable pub new_internal_page : PageId → PageId → Page
new_internal_page id leftmost_child =
    set_leftmost_child_page_id
      (set_free_space_offset (set_page_type (zeroed id) internal_page) page_size) leftmost_child

unfoldable pub new_metadata_page : PageId → PageId → Page
new_metadata_page id root_id = set_root_page_id (set_page_type (zeroed id) metadata_page) root_id

-- `p.Data[lo:hi]`, which panics when the bounds are crossed or lie outside the array.
unfoldable pub slice : Page → ℕ → ℕ → Option (List ℕ)
slice p lo hi =
    if leb lo hi && leb hi page_size then some (read_bytes p.bytes lo (hi - lo)) else none

-- `copy(p.Data[lo:hi], src)` copies the shorter of the two.
unfoldable pub copy_to : Page → ℕ → ℕ → List ℕ → Option Page
copy_to p lo hi src =
    if leb lo hi && leb hi page_size
    then some (record p { bytes = write_bytes p.bytes lo (take (hi - lo) src) })
    else none

pub record Slot : Type 0 where
  pub offset : ℕ
  pub length : ℕ

-- `HeaderSize + i*SlotSize`, in `uint16`.
unfoldable pub slot_start : ℕ → ℕ
slot_start i = word16 (header_size + word16 (i * slot_size))

unfoldable pub get_slot : Page → ℕ → Option Slot
get_slot p i = do
  let start = slot_start i
  offset ← slice p start (word16 (start + 2))
  length ← slice p (word16 (start + 2)) (word16 (start + 4))
  some (record { offset = be_decode offset; length = be_decode length })

unfoldable pub set_slot : Page → ℕ → Slot → Option Page
set_slot p i s = do
  let start = slot_start i
  p' ← copy_to p start (word16 (start + 2)) (be_bytes 2 s.offset)
  copy_to p' (word16 (start + 2)) (word16 (start + 4)) (be_bytes 2 s.length)

unfoldable pub get_entry : Page → ℕ → Option (List ℕ)
get_entry p i = do s ← get_slot p i; slice p s.offset (word16 (s.offset + s.length))

-- `int(right) - int(left) >= SlotSize + entryLen`, with `left` on the other side.
unfoldable pub has_space_for : Page → ℕ → Bool
has_space_for p entry_len =
    let left = word16 (header_size + word16 (num_entries p * slot_size)) in
    leb (left + (slot_size + entry_len)) (free_space_offset p)

-- The division panics when `SlotSize + entrySize` wraps to 0.
unfoldable pub max_entries : ℕ → Option ℕ
max_entries size =
    let width = word16 (slot_size + size) in
    if width == 0 then none else some ((page_size - header_size) / width)

unfoldable pub min_entries : ℕ → Option ℕ
min_entries size = do most ← max_entries size; some (most / 2)

-- The loop `for i := n; i > slotIndex; i--`, which moves each slot up by one.
unfoldable pub shift_slots : ℕ → ℕ → Page → Option Page
shift_slots zero slot_index p = some p
shift_slots (suc i) slot_index p = elim (ltb slot_index (suc i)) [
  | true ↦ do moving ← get_slot p i; p' ← set_slot p (suc i) moving; shift_slots i slot_index p'
  | false ↦ some p
]

unfoldable pub insert_entry : Page → ℕ → List ℕ → Option Page
insert_entry p slot_index entry = do
  let n = num_entries p
  let size = word16 (length entry)
  shifted ← shift_slots n slot_index p
  let offset = word16 (free_space_offset shifted + 65536 - size)
  filled ← copy_to shifted offset (word16 (offset + size)) entry
  slotted ← set_slot filled slot_index (record { offset = offset; length = size })
  some (set_num_entries (set_free_space_offset slotted offset) (word16 (n + 1)))

-- The loop over `i` from `from`, with `rounds` rounds left, that copies every entry but one.
unfoldable pub other_entries : Page → ℕ → ℕ → ℕ → Option (List (List ℕ))
other_entries p slot_index zero from = some []
other_entries p slot_index (suc rounds) from = elim (from == slot_index) [
  | true ↦ other_entries p slot_index rounds (from + 1)
  | false ↦ do
    entry ← get_entry p from
    rest ← other_entries p slot_index rounds (from + 1)
    some (entry ∷ rest)
]

-- `for i, entry := range entries { p.InsertEntry(uint16(i), entry) }`, with `i` from `from` on.
unfoldable pub insert_all : Page → ℕ → List (List ℕ) → Option Page
insert_all p from [] = some p
insert_all p from (entry ∷ entries) = do
  p' ← insert_entry p (word16 from) entry
  insert_all p' (from + 1) entries

unfoldable pub delete_entry : Page → ℕ → Option Page
delete_entry p slot_index =
    let n = num_entries p in
    if leb n slot_index then some p else do
      entries ← other_entries p slot_index n 0
      insert_all (set_free_space_offset (set_num_entries p 0) page_size) 0 entries
