-- ===== src/Heap/Open.antt =====
-- Opening a heap whose file has no page.
use index_lab.Errors.{Result, ok, err}
use index_lab.Heap.{open_store}
use index_lab.Heap.Choose.{allocate_lem}
use index_lab.Heap.Rows.{IsHeap}
use index_lab.Page.{Page, new_heap_page}
use index_lab.Page.Header.{new_heap_page-Layout}
use index_lab.Pool.Access.{result_cases}
use index_lab.Prelude.{◌≡◌, sym, [], arith, inl, inr}
use index_lab.Storage.{page_count}
use index_lab.Storage.ReadWrite.{IsAddressable}
use index_lab.Store
use index_lab.Store.{Store, allocate}
use index_lab.Store.View.{
  IsStore, IsWritten, next_id, write-IsWritten, write-next_id, allocate-KeepsAll,
}
use mathlib.Core.Path.{subst}

-- The heap that an opening with the answer `r` leaves.
abbrev pub IsOpened : Store → Result Page → Type 0
IsOpened s (ok p) = IsHeap (record { store = s; active_page = p })
IsOpened s (err x) = IsStore s

module _ (s : Store) (v : IsStore s) (empty : next_id s ≡ 0) where
  abbrev fresh : Page
  fresh = new_heap_page (allocate s).1

  abbrev written : Store × Result (Unit {0})
  written = Store.write (allocate s).0 fresh

  fresh_place : IsAddressable fresh.id
  fresh_place =
      let (_, _, own) = new_heap_page-Layout (allocate s).1 in
      omega (arith, own, (allocate_lem s (omega (arith, empty))).0, empty)

  open_failed : (x : index_lab.Errors.Error) → written.1 ≡ err x → open_store s ≡ (written.0, err x)
  unfolding open_store page_count
  open_failed x e = ground (arith, e, empty)

  open_done : written.1 ≡ ok tt → open_store s ≡ (written.0, ok fresh)
  unfolding open_store page_count
  open_done e = ground (arith, e, empty)

  IsOpened-of :
      (t : Store × Result Page)
      → open_store s ≡ t
      → IsOpened t.0 t.1
      → IsOpened (open_store s).0 (open_store s).1
  IsOpened-of t e o = subst (λ (c : Store × Result Page). IsOpened c.0 c.1) (sym e) o

  -- Opening a heap whose file has no page, through a store with the invariant, gives a well-formed
  -- heap, or an error and a store with the invariant.
  pub open_store-IsOpened : IsOpened (open_store s).0 (open_store s).1
  open_store-IsOpened =
      let (valid, _, got) =
        write-IsWritten (allocate s).0 fresh (allocate-KeepsAll s v).0 fresh_place in
      let (l, _, own) = new_heap_page-Layout (allocate s).1 in
      let (id, next) = allocate_lem s (omega (arith, empty)) in
      elim (result_cases written.1) [
        | inl (u, e) ↦
            IsOpened-of (written.0, ok fresh) (open_done e)
              (record {
                entries = [];
                layout = l;
                valid = valid;
                place = fresh_place;
                shown = subst (IsWritten written.0 fresh) e got;
                below = omega (arith, own, id, next, write-next_id (allocate s).0 fresh);
              })
        | inr (x, e) ↦ IsOpened-of (written.0, err x) (open_failed x e) valid
      ]
