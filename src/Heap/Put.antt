-- ===== src/Heap/Put.antt =====
-- `Put` adds a row and loses none.
use index_lab.Errors.{Error, Result, ok, err, row_too_large}
use index_lab.Heap.{Heap, choose_page, record_id, put, put_into}
use index_lab.Heap.Choose.{IsChosen, choose_page-IsChosen}
use index_lab.Heap.Rows.{IsHeld, IsHeap, record_id_lem, num_entries_congr, get_entry_congr}
use index_lab.Page.{Page, page_size, num_entries, get_entry, insert_entry}
use index_lab.Page.Insert.{insert_entry-Layout}
use index_lab.Page.Layout.{Layout, SameHeader, get_entry-Layout}
use index_lab.Pool.Access.{result_cases}
use index_lab.Prelude.{
  ℕ, ◌+◌, ◌*◌, ◌^◌, ◌≤◌, ◌<◌, ◌≡◌, ◌≢◌, sym, ap, ◌∙◌, some, List, [], length, get_or, insert_at,
  get_or-insert_at_lt, get_or-insert_at_self, length-insert_at, arith, inl, inr,
}
use index_lab.Prelude.Int.{ℤ, pos}
use index_lab.Storage.ReadWrite.{IsAddressable}
use index_lab.Store
use index_lab.Store.{Store}
use index_lab.Store.View.{Shows, IsWritten, next_id, write-IsWritten, write-next_id}
use mathlib.Core.Path.{subst}
use native.Mathlib.Decide.{ℕ_discrete}

-- What `Put` promises: a heap that holds the row under the answer and every row of before. After an
-- error of the store, the rows on other pages than the active one are still held.
abbrev pub IsPut : Heap → List ℕ → Heap → Result ℤ → Type 0
IsPut h row h' (err x) =
    (other : ℤ) (line : List ℕ) (held : IsHeld h.store other line)
    → held.page.id ≢ h'.active_page.id
    → IsHeld h'.store other line
IsPut h row h' (ok rid) =
    IsHeap h'
    × IsHeld h'.store rid row
    × ((other : ℤ) (line : List ℕ) → IsHeld h.store other line → IsHeld h'.store other line)

module _ (h : Heap) (row : List ℕ) (s : Store) (p : Page) (c : IsChosen h row s p) (q : Page)
    (run : insert_entry p (num_entries p) row ≡ some q)
    (l : Layout q (insert_at (length c.entries) row c.entries)) (same : SameHeader p q) where
  abbrev written : Store × Result (Unit {0})
  written = Store.write s q

  abbrev after : Heap
  after = record { store = written.0; active_page = q }

  place_q : IsAddressable q.id
  place_q = subst IsAddressable (sym same.id) c.place

  put_into_failed : (x : Error) → written.1 ≡ err x → put_into (s, p) row ≡ some (after, err x)
  unfolding put_into
  put_into_failed x e = ground (arith, run, e)

  put_into_done :
      written.1 ≡ ok tt → put_into (s, p) row ≡ some (after, ok (record_id q.id (num_entries p)))
  unfolding put_into
  put_into_done e = ground (arith, run, e)

  -- A row on another page stays, whether the write succeeds or not.
  apart-IsHeld :
      (rid : ℤ) (line : List ℕ) (held : IsHeld h.store rid line)
      → held.page.id ≢ q.id
      → IsHeld written.0 rid line
  apart-IsHeld rid line held there = record {
    page = held.page;
    slot_index = held.slot_index;
    place = held.place;
    shown = λ i b.
        let before = c.keeps held.page.id i (held.page.bytes i) held.place b (held.shown i b) in
        (write-IsWritten s q c.valid place_q).1 held.page.id i (held.page.bytes i)
          (λ eq. there (sym eq)) held.place b before;
    below = omega (arith, held.below, c.grows, write-next_id s q);
    few = held.few;
    inside = held.inside;
    entry = held.entry;
    name = held.name;
  }

  module _ (e : written.1 ≡ ok tt) where
    shown_q : Shows written.0 q
    shown_q = subst (IsWritten written.0 q) e (write-IsWritten s q c.valid place_q).2

    count_q : num_entries q ≡ length c.entries + 1
    count_q = omega (arith, l.count, length-insert_at (length c.entries) row c.entries)

    below_q : q.id < next_id written.0
    below_q = omega (arith, same.id, c.below, write-next_id s q)

    after-IsHeap : IsHeap after
    after-IsHeap = record {
      entries = insert_at (length c.entries) row c.entries;
      layout = l;
      valid = (write-IsWritten s q c.valid place_q).0;
      place = place_q;
      shown = shown_q;
      below = below_q;
    }

    row-IsHeld : IsHeld written.0 (record_id q.id (num_entries p)) row
    row-IsHeld = record {
      page = q;
      slot_index = num_entries p;
      place = place_q;
      shown = shown_q;
      below = below_q;
      few = omega (arith, c.layout.count, c.room);
      inside = omega (arith, c.layout.count, count_q);
      entry =
          get_entry-Layout q (insert_at (length c.entries) row c.entries) (num_entries p) l
            (omega (arith, c.layout.count, count_q, l.count))
          ∙ ap (λ i. some (get_or (insert_at (length c.entries) row c.entries) i [])) c.layout.count
          ∙ ap some (get_or-insert_at_self (length c.entries) row [] c.entries (omega arith));
      name = record_id_lem q.id (num_entries p) place_q (omega (arith, c.layout.count, c.room));
    }

    -- A row of the page that grew stays in its slot.
    grown_entry :
        (i : ℕ) (line : List ℕ)
        → i < num_entries p
        → get_entry p i ≡ some line
        → get_entry q i ≡ some line
    grown_entry i line inside found =
        let old = get_entry-Layout p c.entries i c.layout (omega (arith, c.layout.count)) in
        get_entry-Layout q (insert_at (length c.entries) row c.entries) i l
          (omega (arith, c.layout.count, count_q, l.count))
        ∙ ap some (
            get_or-insert_at_lt (length c.entries) i row [] c.entries
              (omega (arith, c.layout.count)) (omega arith))
        ∙ sym old
        ∙ found

    others-IsHeld : (rid : ℤ) (line : List ℕ) → IsHeld h.store rid line → IsHeld written.0 rid line
    others-IsHeld rid line held = elim (ℕ_discrete held.page.id p.id) [
      | yes here ↦
          let agree = c.agrees held.page held.shown held.below here in
          let count = num_entries_congr p held.page agree in
          record {
            page = q;
            slot_index = held.slot_index;
            place = place_q;
            shown = shown_q;
            below = below_q;
            few = held.few;
            inside = omega (arith, held.inside, count, c.layout.count, count_q);
            entry =
                grown_entry held.slot_index line (omega (arith, held.inside, count))
                  (sym (get_entry_congr p held.page agree held.slot_index) ∙ held.entry);
            name = held.name ∙ ap (λ t. pos (t * page_size + held.slot_index)) (here ∙ sym same.id);
          }
      | no there ↦ apart-IsHeld rid line held (λ eq. there (eq ∙ same.id))
    ]

module _ (h : Heap) (row : List ℕ) (v : IsHeap h) (more : next_id h.store < 2 ^ 51)
    (small : 25 + length row ≤ page_size) where
  abbrev chosen : Store × Page
  chosen = choose_page h (length row)

  put-put_into : put h row ≡ put_into chosen row
  unfolding put
  put-put_into = ground arith

  -- On a well-formed heap with fewer than 2^51 pages, `Put` of a row that fits a page does not
  -- panic. If it succeeds, the heap is well formed, holds the row under the record ID that it
  -- answers, and holds every row that it held before. If the store fails, the rows on other pages
  -- than the active one are still held.
  pub put-IsPut : (h' : Heap) × (r : Result ℤ) × (put h row ≡ some (h', r)) × IsPut h row h' r
  put-IsPut =
      let c = choose_page-IsChosen h row v more small in
      let (q, run, l, same) =
        insert_entry-Layout chosen.1 c.entries (length c.entries) row c.layout (omega arith)
          (omega (arith, c.room)) in
      let run' : insert_entry chosen.1 (num_entries chosen.1) row ≡ some q =
        ap (λ i. insert_entry chosen.1 i row) c.layout.count ∙ run in
      elim (result_cases (Store.write chosen.0 q).1) [
        | inl (u, e) ↦ (
          after h row chosen.0 chosen.1 c q run' l same,
          ok (record_id q.id (num_entries chosen.1)),
          put-put_into ∙ put_into_done h row chosen.0 chosen.1 c q run' l same e,
          (
            after-IsHeap h row chosen.0 chosen.1 c q run' l same e,
            row-IsHeld h row chosen.0 chosen.1 c q run' l same e,
            others-IsHeld h row chosen.0 chosen.1 c q run' l same e,
          ),
        )
        | inr (x, e) ↦ (
          after h row chosen.0 chosen.1 c q run' l same,
          err x,
          put-put_into ∙ put_into_failed h row chosen.0 chosen.1 c q run' l same x e,
          apart-IsHeld h row chosen.0 chosen.1 c q run' l same,
        )
      ]

-- `Put` of a row of 4072 bytes or more, which no page can hold, is refused, and the heap stays as
-- it is.
pub put-row_too_large :
    (h : Heap) (row : List ℕ) → 4072 ≤ length row → put h row ≡ some (h, err row_too_large)
unfolding put
put-row_too_large h row large = ground arith
