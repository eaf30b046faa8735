-- ===== src/Heap/Rows.antt =====
-- The rows that a heap holds, by record ID.
use index_lab.Bytes.{read_bytes, read_bytes_congr, be_decode}
use index_lab.Heap.{Heap, record_id}
use index_lab.Key.{to_word, of_word}
use index_lab.Page.{
  Page, page_size, word16, num_entries, get_field, get_entry, get_slot, slice, slot_start,
}
use index_lab.Page.Layout.{Layout}
use index_lab.Prelude.{
  ℕ, ◌+◌, ◌-◌, ◌*◌, ◌/◌, ◌%◌, ◌<◌, ◌≡◌, ap, some, none, List, leb, arith, Option-cases, inl, inr,
  if◌then◌else◌, ◌&&◌,
}
use index_lab.Prelude.Int.{ℤ, pos}
use index_lab.Storage.ReadWrite.{IsAddressable}
use index_lab.Store.{Store}
use index_lab.Store.View.{IsStore, Shows, next_id}
use native.Mathlib.Decide.{dec_le}

-- The store shows a page with the row in a slot, and the record ID says where.
pub record IsHeld (s : Store) (rid : ℤ) (row : List ℕ) : Type 0 where
  pub page : Page
  pub slot_index : ℕ
  pub place : IsAddressable page.id
  pub shown : Shows s page
  pub below : page.id < next_id s
  pub few : slot_index < page_size
  pub inside : slot_index < num_entries page
  pub entry : get_entry page slot_index ≡ some row
  pub name : rid ≡ pos (page.id * page_size + slot_index)

-- The active page is well formed, is what the store shows, and was allocated.
pub record IsHeap (h : Heap) : Type 0 where
  pub entries : List (List ℕ)
  pub layout : Layout h.active_page entries
  pub valid : IsStore h.store
  pub place : IsAddressable h.active_page.id
  pub shown : Shows h.store h.active_page
  pub below : h.active_page.id < next_id h.store

pub record_id_lem :
    (id slot : ℕ)
    → IsAddressable id
    → slot < page_size
    → record_id id slot ≡ pos (id * page_size + slot)
unfolding record_id of_word
record_id_lem id slot h k = ground arith

pub record_id_split :
    (id slot : ℕ)
    → IsAddressable id
    → slot < page_size
    → (to_word (pos (id * page_size + slot)) / page_size ≡ id)
      × (word16 (to_word (pos (id * page_size + slot)) % page_size) ≡ slot)
unfolding to_word
record_id_split id slot h k = (omega arith, omega arith)

-- Two pages with the same bytes have the same entries.
module _ (p q : Page) (same : (i : ℕ) → i < page_size → q.bytes i ≡ p.bytes i) where
  pub num_entries_congr : num_entries q ≡ num_entries p
  unfolding num_entries get_field
  num_entries_congr =
      ap be_decode (read_bytes_congr q.bytes p.bytes 1 2 (λ b i j. same b (omega arith)))

  slice_congr : (lo hi : ℕ) → slice q lo hi ≡ slice p lo hi
  unfolding slice
  slice_congr lo hi = elim (dec_le hi page_size) [
    | yes h ↦
        let bytes : read_bytes q.bytes lo (hi - lo) ≡ read_bytes p.bytes lo (hi - lo) =
          read_bytes_congr q.bytes p.bytes lo (hi - lo) (λ b i j. same b (omega arith)) in
        ap (λ t. if leb lo hi && leb hi page_size then some t else none) bytes
    | no h ↦ ground arith
  ]

  get_slot_congr : (i : ℕ) → get_slot q i ≡ get_slot p i
  unfolding get_slot
  get_slot_congr i =
      let start = slot_start i in
      rw (
        slice_congr start (word16 (start + 2)),
        slice_congr (word16 (start + 2)) (word16 (start + 4)),
      )

  pub get_entry_congr : (i : ℕ) → get_entry q i ≡ get_entry p i
  unfolding get_entry
  get_entry_congr i = elim (Option-cases (get_slot p i)) [
    | inl bad ↦ ground (arith, get_slot_congr i)
    | inr (s, good) ↦
        ground (arith, get_slot_congr i, slice_congr s.offset (word16 (s.offset + s.length)))
  ]
