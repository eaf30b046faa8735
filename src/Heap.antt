-- ===== src/Heap.antt =====
-- The append-only row store of internal/heap/heap.go.
pub mod Rows
pub mod Get
pub mod Choose
pub mod Put
pub mod Open
use index_lab.Errors.{Error, Result, ok, err, row_too_large, slot_out_of_range}
use index_lab.Key.{to_word, of_word}
use index_lab.Page.{
  Page, PageId, word16, page_size, header_size, slot_size, num_entries, get_entry, has_space_for,
  insert_entry, new_heap_page,
}
use index_lab.Prelude.{
  ℕ, ◌+◌, ◌-◌, ◌*◌, ◌/◌, ◌%◌, Bool, true, false, Option, none, some, List, length, leb, ltb, ◌==◌,
  if◌then◌else◌, ◌>>=◌,
}
use index_lab.Prelude.Int.{ℤ}
use index_lab.Storage.{File, PageManager, open_file, page_count, word64}
use index_lab.Store
use index_lab.Store.{Store, manager, allocate, new_store}

-- `activePage` is written through `writePage` after every change, so its value stands here.
pub record Heap : Type 0 where
  pub store : Store
  pub active_page : Page

unfoldable pub open_store : Store → Store × Result Page
open_store s =
    if page_count (manager s) == 0
    then (let (s', id) = allocate s in
        let (t, wrote) = Store.write s' (new_heap_page id) in
        (t, elim wrote [ err e ↦ err e | ok _ ↦ ok (new_heap_page id) ]))
    else Store.read s (page_count (manager s) - 1)

unfoldable pub open_heap : File → Option ℤ → Result Heap
open_heap f capacity = elim (open_file f) [
  | err e ↦ err e
  | ok pm ↦
      let (s, r) = open_store (new_store pm capacity) in
      elim r [ err e ↦ err e | ok p ↦ ok (record { store = s; active_page = p }) ]
]

-- The page that a row goes to: the active page, or a new one when that has no space.
unfoldable pub choose_page : Heap → ℕ → Store × Page
choose_page h size =
    if has_space_for h.active_page size
    then (h.store, h.active_page)
    else (let (s, id) = allocate h.store in (s, new_heap_page id))

-- `int64(uint64(ID)*uint64(PageSize) + uint64(slotIndex))`.
unfoldable pub record_id : ℕ → ℕ → ℤ
record_id id slot_index = of_word (word64 (word64 (id * page_size) + slot_index))

-- The rest of `Put`, on the page that the row goes to.
unfoldable pub put_into : Store × Page → List ℕ → Option (Heap × Result ℤ)
put_into chosen row = do
  let slot_index = num_entries chosen.1
  active ← insert_entry chosen.1 slot_index row
  let written = Store.write chosen.0 active
  let h : Heap = record { store = written.0; active_page = active }
  elim written.1 [ err e ↦ some (h, err e) | ok _ ↦ some (h, ok (record_id active.id slot_index)) ]

unfoldable pub put : Heap → List ℕ → Option (Heap × Result ℤ)
put h row =
    if ltb page_size (header_size + slot_size + length row)
    then some (h, err row_too_large)
    else put_into (choose_page h (length row)) row

-- `Get`, once the record ID is split into a page ID and a slot index.
unfoldable pub get_from : Heap → PageId → ℕ → Option (Heap × Result (List ℕ))
get_from h page_id slot_index =
    let loaded = Store.read h.store page_id in
    let h' : Heap = record h { store = loaded.0 } in
    elim loaded.1 [
      | err e ↦ some (h', err e)
      | ok p ↦ elim (leb (num_entries p) slot_index) [
        | true ↦ some (h', err slot_out_of_range)
        | false ↦ do row ← get_entry p slot_index; some (h', ok row)
      ]
    ]

unfoldable pub get : Heap → ℤ → Option (Heap × Result (List ℕ))
get h rid = get_from h (to_word rid / page_size) (word16 (to_word rid % page_size))

unfoldable pub sync : Heap → List ℕ → Heap × Result (Unit {0})
sync h order = let (s, r) = Store.sync h.store order in (record h { store = s }, r)

unfoldable pub close : Heap → List ℕ → Heap × Result (Unit {0})
close h order = let (s, r) = Store.close h.store order in (record h { store = s }, r)
