-- ===== src/Heap/Choose.antt =====
-- The page that `Put` appends a row to.
use index_lab.Heap.{Heap, choose_page}
use index_lab.Heap.Get.{some_injective}
use index_lab.Heap.Rows.{IsHeap}
use index_lab.Page.{Page, page_size, has_space_for, new_heap_page}
use index_lab.Page.Header.{new_heap_page-Layout}
use index_lab.Page.Layout.{Layout, total, has_space_for-Layout}
use index_lab.Prelude.{
  ℕ, ◌+◌, ◌*◌, ◌^◌, ◌≤◌, ◌<◌, ◌≡◌, refl, sym, ap, ◌∙◌, List, [], length, leb→le, arith, inl, inr,
  Bool-cases, if◌then◌else◌,
}
use index_lab.Storage.{allocate_page_id}
use index_lab.Storage.ReadWrite.{IsAddressable}
use index_lab.Store.{Store, allocate}
use index_lab.Store.View.{IsStore, KeepsAll, Shows, byte, next_id, allocate-KeepsAll}
use mathlib.Core.Path.{subst}

-- The page that a row goes to has room for it, was allocated, and is new or what the store shows.
pub record IsChosen (h : Heap) (row : List ℕ) (s : Store) (p : Page) : Type 0 where
  pub entries : List (List ℕ)
  pub layout : Layout p entries
  pub room : 25 + length entries * 4 + total entries + length row ≤ page_size
  pub valid : IsStore s
  pub keeps : KeepsAll h.store s
  pub place : IsAddressable p.id
  pub below : p.id < next_id s
  pub grows : next_id h.store ≤ next_id s
  pub agrees :
      (pg : Page)
      → Shows h.store pg
      → pg.id < next_id h.store
      → pg.id ≡ p.id
      → (i : ℕ) → i < page_size
      → pg.bytes i ≡ p.bytes i

-- The ID that an allocation returns, and the next one.
pub allocate_lem :
    (s : Store)
    → next_id s < 2 ^ 51
    → ((allocate s).1 ≡ next_id s) × (next_id (allocate s).0 ≡ next_id s + 1)
unfolding allocate allocate_page_id
allocate_lem (Store.direct pm) h = (refl, omega arith)
allocate_lem (Store.pooled p) h = (refl, omega arith)

pub choose_page-IsChosen :
    (h : Heap) (row : List ℕ)
    → IsHeap h
    → next_id h.store < 2 ^ 51
    → 25 + length row ≤ page_size
    → IsChosen h row (choose_page h (length row)).0 (choose_page h (length row)).1
unfolding choose_page
choose_page-IsChosen h row v more small =
    let space = has_space_for-Layout h.active_page v.entries (length row) v.layout in
    elim (Bool-cases (has_space_for h.active_page (length row))) [
      | inl t ↦
          subst (λ (c : Store × Page). IsChosen h row c.0 c.1)
            (ap
              (λ b.
                if b
                then (h.store, h.active_page)
                else ((allocate h.store).0, new_heap_page (allocate h.store).1))
              (sym t))
            (record {
              entries = v.entries;
              layout = v.layout;
              room = leb→le _ _ (sym space ∙ t);
              valid = v.valid;
              keeps = λ id i b a k e. e;
              place = v.place;
              below = v.below;
              grows = omega arith;
              agrees = λ pg shown known same i b.
                  some_injective (sym (shown i b) ∙ ap (λ t. byte h.store t i) same ∙ v.shown i b);
            })
      | inr f ↦
          let (l, _, own) = new_heap_page-Layout (allocate h.store).1 in
          let (id, next) = allocate_lem h.store more in
          let (valid, keeps) = allocate-KeepsAll h.store v.valid in
          subst (λ (c : Store × Page). IsChosen h row c.0 c.1)
            (ap
              (λ b.
                if b
                then (h.store, h.active_page)
                else ((allocate h.store).0, new_heap_page (allocate h.store).1))
              (sym f))
            (record {
              entries = [];
              layout = l;
              room = omega arith;
              valid = valid;
              keeps = keeps;
              place = omega (arith, own, id);
              below = omega (arith, own, id, next);
              grows = omega (arith, next);
              agrees = λ pg shown known same i b. absurd (omega (arith, own, id));
            })
    ]
