-- ===== src/Tests/Heaps.antt =====
-- A heap without a pool, over an empty file whose calls all succeed.
use index_lab.Errors.{Result, ok}
use index_lab.Heap.{Heap, open_store, put, get, record_id, choose_page, put_into}
use index_lab.Heap.Get.{IsRow, get-IsRow}
use index_lab.Heap.Open.{IsOpened, open_store-IsOpened}
use index_lab.Heap.Put.{IsPut, put-IsPut}
use index_lab.Heap.Rows.{IsHeld, IsHeap}
use index_lab.Page.{Page, new_heap_page, new_leaf_page}
use index_lab.Pool.{new_pool}
use index_lab.Pool.View.{new_pool-IsPool}
use index_lab.Prelude.{
  ℕ, zero, suc, ◌≡◌, refl, sym, ap, ◌∙◌, Option, some, none, List, [], ◌∷◌, length, arith,
}
use index_lab.Prelude.Int.{ℤ, pos}
use index_lab.Storage.{PageManager, page_count, allocate_page_id, write_page, seek, write}
use index_lab.Store
use index_lab.Store.{Store, direct, pooled, allocate}
use index_lab.Store.View.{IsStore, KeepsOthers, IsWritten, write-IsWritten}
use index_lab.Page.Header.{new_leaf_page-Layout}
use mathlib.Core.Path.{subst}

abbrev opened : PageManager
opened = record {
  file = record { content = λ i. 0; size = 0; position = 0; outcomes = [] };
  next_page_id = 0;
  page_reads = 0;
  page_writes = 0;
  sync_calls = 0;
}

open_store-IsOpened_example :
    IsOpened
      (open_store (pooled (new_pool opened (pos 2)))).0
      (open_store (pooled (new_pool opened (pos 2)))).1
unfolding new_pool
open_store-IsOpened_example =
    open_store-IsOpened (pooled (new_pool opened (pos 2))) (new_pool-IsPool opened (pos 2)) refl

abbrev first_heap : Heap
first_heap = record { store = (open_store (direct opened)).0; active_page = new_heap_page 0 }

first_answer : (open_store (direct opened)).1 ≡ ok (new_heap_page 0)
unfolding open_store page_count allocate allocate_page_id Store.write write_page seek write
    new_heap_page index_lab.Page.set_free_space_offset index_lab.Page.set_field
    index_lab.Page.set_page_type index_lab.Page.zeroed
first_answer = refl

first_heap-IsHeap : IsHeap first_heap
first_heap-IsHeap =
    subst (IsOpened (open_store (direct opened)).0) first_answer
      (open_store-IsOpened (direct opened) tt refl)

abbrev row : List ℕ
row = 104 ∷ 105 ∷ []

put-IsPut_example :
    (h : Heap) × (r : Result ℤ) × (put first_heap row ≡ some (h, r)) × IsPut first_heap row h r
unfolding open_store page_count allocate allocate_page_id Store.write write_page seek write
    new_heap_page index_lab.Page.set_free_space_offset index_lab.Page.set_field
    index_lab.Page.set_page_type index_lab.Page.zeroed
put-IsPut_example = put-IsPut first_heap row first_heap-IsHeap (omega arith) (omega arith)

long_row : (n : ℕ) → (r : List ℕ) × (length r ≡ n)
long_row zero = ([], refl)
long_row (suc n) = let (r, e) = long_row n in (0 ∷ r, ap suc e)

first_put :
    (h : Heap) × (r : Result ℤ) × (put first_heap row ≡ some (h, r)) × IsPut first_heap row h r
unfolding open_store page_count allocate allocate_page_id Store.write write_page seek write
    new_heap_page index_lab.Page.set_free_space_offset index_lab.Page.set_field
    index_lab.Page.set_page_type index_lab.Page.zeroed
first_put = put-IsPut first_heap row first_heap-IsHeap (omega arith) (omega arith)

abbrev answer : Option (Heap × Result ℤ) → Option (Result ℤ)
answer none = none
answer (some (h, r)) = some r

answer-put : answer (put first_heap row) ≡ some (ok (pos 0))
unfolding open_store page_count allocate allocate_page_id Store.write write_page seek write
    new_heap_page index_lab.Page.set_free_space_offset index_lab.Page.set_field
    index_lab.Page.set_page_type index_lab.Page.zeroed put put_into choose_page record_id
    index_lab.Key.of_word index_lab.Page.has_space_for index_lab.Page.num_entries
    index_lab.Page.get_field index_lab.Page.free_space_offset index_lab.Page.insert_entry
    index_lab.Page.shift_slots index_lab.Page.copy_to index_lab.Page.set_slot
    index_lab.Page.slot_start index_lab.Page.set_num_entries index_lab.Bytes.be_bytes
    index_lab.Bytes.be_decode index_lab.Bytes.read_bytes index_lab.Bytes.write_bytes
answer-put = refl

filled : (h : Heap) × IsPut first_heap row h (ok (pos 0))
filled =
    let (h, r, run, promise) = first_put in
    let same : some r ≡ some (ok (pos 0)) = sym (ap answer run) ∙ answer-put in
    let is_ok : r ≡ ok (pos 0) = cc same in (h, subst (IsPut first_heap row h) is_ok promise)

get-IsRow_example :
    (h' : Heap) × (r : Result (List ℕ)) × (get filled.0 (pos 0) ≡ some (h', r))
    × IsRow filled.0.store (pos 0) row r
    × IsHeap h'
    × ((other : ℤ) (line : List ℕ) → IsHeld filled.0.store other line → IsHeld h'.store other line)
get-IsRow_example = get-IsRow filled.0 (pos 0) row filled.1.0 filled.1.1

write-IsWritten_example :
    IsStore (Store.write filled.0.store (new_leaf_page 5)).0
    × KeepsOthers
        (new_leaf_page 5).id
        filled.0.store
        (Store.write filled.0.store (new_leaf_page 5)).0
    × IsWritten
        (Store.write filled.0.store (new_leaf_page 5)).0
        (new_leaf_page 5)
        (Store.write filled.0.store (new_leaf_page 5)).1
write-IsWritten_example =
    write-IsWritten filled.0.store (new_leaf_page 5) filled.1.0.valid
      (omega (arith, (new_leaf_page-Layout 5).4))
