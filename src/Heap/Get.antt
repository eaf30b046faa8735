-- ===== src/Heap/Get.antt =====
-- `Get` finds the rows that the heap holds.
use index_lab.Errors.{Error, Result, ok, err}
use index_lab.Heap.{Heap, get, get_from}
use index_lab.Heap.Rows.{IsHeld, IsHeap, record_id_split, num_entries_congr, get_entry_congr}
use index_lab.Key.{to_word}
use index_lab.Page.{Page, page_size, word16, num_entries, get_entry}
use index_lab.Pool.Access.{result_cases}
use index_lab.Prelude.{
  ℕ, ◌/◌, ◌%◌, ◌<◌, ◌≡◌, refl, sym, ap, ◌∙◌, false, some, List, leb, arith, inl, inr,
}
use index_lab.Prelude.Int.{ℤ}
use index_lab.Store
use index_lab.Store.{Store}
use index_lab.Store.Failure.{CanFail, read_err}
use index_lab.Store.View.{
  IsStore, KeepsAll, IsReadFrom, next_id, read-IsReadFrom, read-next_id, byte,
}
use mathlib.Core.Path.{subst}

-- A store that still shows all that it showed, and has allocated no less, holds what it held.
pub IsHeld-keep :
    (s t : Store)
    → KeepsAll s t
    → next_id s ≡ next_id t
    → (rid : ℤ) (row : List ℕ) → IsHeld s rid row
    → IsHeld t rid row
IsHeld-keep s t keeps same rid row held = record {
  page = held.page;
  slot_index = held.slot_index;
  place = held.place;
  shown = λ i h. keeps held.page.id i (held.page.bytes i) held.place h (held.shown i h);
  below = omega (arith, held.below, same);
  few = held.few;
  inside = held.inside;
  entry = held.entry;
  name = held.name;
}

pub IsHeap-keep :
    (h : Heap) (t : Store)
    → IsHeap h
    → IsStore t
    → KeepsAll h.store t
    → next_id h.store ≡ next_id t
    → IsHeap (record h { store = t })
IsHeap-keep h t v valid keeps same = record {
  entries = v.entries;
  layout = v.layout;
  valid = valid;
  place = v.place;
  shown = λ i b. keeps h.active_page.id i (h.active_page.bytes i) v.place b (v.shown i b);
  below = omega (arith, v.below, same);
}

-- What `Get` answers for a row that is there: the row, or the error of reading its page, which is
-- one of a call of the file.
abbrev pub IsRow : Store → ℤ → List ℕ → Result (List ℕ) → Type 0
IsRow s rid row (ok r) = r ≡ row
IsRow s rid row (err x) = ((Store.read s (to_word rid / page_size)).1 ≡ err x) × CanFail s

pub some_injective : {a b : ℕ} → some a ≡ some b → a ≡ b
some_injective e = cc e

module _ (h : Heap) (rid : ℤ) (row : List ℕ) (v : IsHeap h) (held : IsHeld h.store rid row) where
  abbrev loaded : Store × Result Page
  loaded = Store.read h.store held.page.id

  abbrev after : Heap
  after = record h { store = loaded.0 }

  page_of : to_word rid / page_size ≡ held.page.id
  page_of =
      ap (λ t. to_word t / page_size) held.name
      ∙ (record_id_split held.page.id held.slot_index held.place held.few).0

  slot_of : word16 (to_word rid % page_size) ≡ held.slot_index
  slot_of =
      ap (λ t. word16 (to_word t % page_size)) held.name
      ∙ (record_id_split held.page.id held.slot_index held.place held.few).1

  get-get_from : get h rid ≡ get_from h held.page.id held.slot_index
  unfolding get
  get-get_from = ap (λ t. get_from h t _) page_of ∙ ap (get_from h held.page.id) slot_of

  get_unread : (x : Error) → loaded.1 ≡ err x → get h rid ≡ some (after, err x)
  unfolding get_from
  get_unread x e = get-get_from ∙ ground (arith, e)

  -- A page that is read is the page that the store showed.
  same_bytes :
      (pg : Page)
      → IsReadFrom h.store held.page.id (ok pg)
      → (i : ℕ) → i < page_size
      → pg.bytes i ≡ held.page.bytes i
  same_bytes pg (own, shown) i b =
      some_injective (sym (ap (λ t. byte h.store t i) (sym own) ∙ shown i b) ∙ held.shown i b)

  get-row :
      (pg : Page)
      → loaded.1 ≡ ok pg
      → IsReadFrom h.store held.page.id (ok pg)
      → get h rid ≡ some (after, ok row)
  unfolding get_from
  get-row pg e got =
      let same = same_bytes pg got in
      let count = num_entries_congr held.page pg same in
      let inside : leb (num_entries pg) held.slot_index ≡ false =
        ground (arith, count, held.inside) in
      let found : get_entry pg held.slot_index ≡ some row =
        get_entry_congr held.page pg same held.slot_index ∙ held.entry in
      get-get_from ∙ ground (arith, e, inside, found)

  -- On a well-formed heap, `Get` of a row that it holds does not panic: it answers the row, or the
  -- error of reading the page that the record ID names, which there is only if one of the coming
  -- calls of the file fails. The heap is well formed after it and holds the rows of before.
  pub get-IsRow :
      (h' : Heap) × (r : Result (List ℕ)) × (get h rid ≡ some (h', r))
      × IsRow h.store rid row r
      × IsHeap h'
      × ((other : ℤ) (line : List ℕ) → IsHeld h.store other line → IsHeld h'.store other line)
  get-IsRow =
      let (valid, keeps, got) = read-IsReadFrom h.store held.page.id v.valid held.place in
      let same = sym (read-next_id h.store held.page.id) in
      let kept = IsHeap-keep h loaded.0 v valid keeps same in
      elim (result_cases loaded.1) [
        | inl (pg, e) ↦ (
          after,
          ok row,
          get-row pg e (subst (IsReadFrom h.store held.page.id) e got),
          refl,
          kept,
          IsHeld-keep h.store loaded.0 keeps same,
        )
        | inr (x, e) ↦ (
          after,
          err x,
          get_unread x e,
          (
            ap (λ d. (Store.read h.store d).1) page_of ∙ e,
            read_err h.store held.page.id (held.page.bytes 0) x v.valid held.place
                (held.shown 0 (omega arith)) e,
          ),
          kept,
          IsHeld-keep h.store loaded.0 keeps same,
        )
      ]
