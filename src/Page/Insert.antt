-- ===== src/Page/Insert.antt =====
-- `InsertEntry` on a well-formed page with room is the insertion into its sequence of entries.
use native.Mathlib.Decide.{dec_lt}
use index_lab.Bytes.{
  read_bytes, write_bytes, read_bytes_congr, read-write_self, write_bytes_outside,
}
use index_lab.Page.{
  Page, Slot, page_size, word16, num_entries, free_space_offset, get_field, set_field,
  set_num_entries, set_free_space_offset, insert_entry, shift_slots,
}
use index_lab.Page.Layout.{Layout, Holds, SameHeader, total, total-insert_at}
use index_lab.Page.Shift.{Shifted, Small, shift_slots_lem}
use index_lab.Page.Slots.{
  put_int, slot_at, put_slot, slot_at-put_slot_self, put_slot_outside, slot_at_congr, set_slot_lem,
  copy_to_lem, int_at-put_int_self, int_at-put_int_apart, put_int_outside,
}
use index_lab.Prelude.{
  ℕ, zero, suc, ◌+◌, ◌-◌, ◌*◌, ◌≤◌, ◌<◌, ◌≡◌, ◌≢◌, ◌⊎◌, inl, inr, refl, sym, ap, ◌∙◌, List, [],
  some, length, get_or, insert_at, length-insert_at, get_or-insert_at_lt, get_or-insert_at_self,
  get_or-insert_at_gt, arith,
}
use mathlib.Core.Path.{subst}

Layout-Small : (p : Page) (es : List (List ℕ)) → Layout p es → Small p.bytes (length es)
Layout-Small p es l j h =
    let held : Holds p.bytes (slot_at p.bytes j) (get_or es j []) (page_size - total es) =
      l.stored j h in
    (omega (arith, held.inside), omega (arith, held.inside, held.size))

-- What a slot points at stays in place while the bytes above the free-space offset do.
Holds-kept :
    (d e : ℕ → ℕ) (s t : Slot) (x : List ℕ) (free free' : ℕ)
    → Holds d s x free
    → t ≡ s
    → free' ≤ free
    → ((b : ℕ) → free ≤ b → e b ≡ d b)
    → Holds e t x free'
Holds-kept d e s t x free free' h same le kept =
    subst (λ r. Holds e r x free') (sym same)
      (record {
        above = omega (arith, h.above);
        inside = h.inside;
        size = h.size;
        content =
            read_bytes_congr e d s.offset (length x) (λ b p q. kept b (omega (arith, h.above)))
            ∙ h.content;
      })

-- The bytes after an insertion at `slot` of entry `e`: the entry at `offset`, its slot, the counters.
module _ (d : ℕ → ℕ) (slot n offset : ℕ) (e : List ℕ) where
  abbrev new_slot : Slot
  new_slot = record { offset = offset; length = length e }

  abbrev placed : ℕ → ℕ
  placed =
      put_int (put_int (put_slot (write_bytes d offset e) slot new_slot) 3 2 offset) 1 2 (n + 1)

  module _ (low : 25 + n * 4 ≤ offset) (high : offset + length e ≤ page_size) (le : slot ≤ n) where
    -- From the header's links on, only slot `slot` and the entry's own bytes change.
    placed_outside :
        (b : ℕ)
        → (b < 1) ⊎ (5 ≤ b)
        → (b < 21 + slot * 4) ⊎ (25 + slot * 4 ≤ b)
        → (b < offset) ⊎ (offset + length e ≤ b)
        → placed b ≡ d b
    placed_outside b h k m =
        put_int_outside (put_int (put_slot (write_bytes d offset e) slot new_slot) 3 2 offset) 1 2
          (n + 1) b (omega arith)
        ∙ put_int_outside (put_slot (write_bytes d offset e) slot new_slot) 3 2 offset b
            (omega arith)
        ∙ put_slot_outside (write_bytes d offset e) slot new_slot b k
        ∙ write_bytes_outside d offset e b m

    -- Below the slot array's end only the counters are written after the slot.
    placed_behind : (b : ℕ) → 5 ≤ b → placed b ≡ put_slot (write_bytes d offset e) slot new_slot b
    placed_behind b h =
        put_int_outside (put_int (put_slot (write_bytes d offset e) slot new_slot) 3 2 offset) 1 2
          (n + 1) b (omega arith)
        ∙ put_int_outside (put_slot (write_bytes d offset e) slot new_slot) 3 2 offset b
            (omega arith)

    placed_slot : slot_at placed slot ≡ new_slot
    placed_slot =
        slot_at_congr placed (put_slot (write_bytes d offset e) slot new_slot) slot
          (λ b p q. placed_behind b (omega arith))
        ∙ slot_at-put_slot_self (write_bytes d offset e) slot new_slot (omega arith) (omega arith)

    placed_other : (j : ℕ) → j ≤ n → j ≢ slot → slot_at placed j ≡ slot_at d j
    placed_other j h ne =
        slot_at_congr placed d j
          (λ b p q. placed_outside b (omega arith) (omega arith) (inl (omega arith)))

    placed_entry : read_bytes placed offset (length e) ≡ e
    placed_entry =
        read_bytes_congr placed (write_bytes d offset e) offset (length e) (λ b p q.
          placed_behind b (omega arith)
          ∙ put_slot_outside (write_bytes d offset e) slot new_slot b (inr (omega arith)))
        ∙ read-write_self d offset e

-- An insertion point in a well-formed page with room for the entry.
module _ (p : Page) (es : List (List ℕ)) (slot : ℕ) (e : List ℕ) (l : Layout p es)
    (le : slot ≤ length es) (room : 25 + length es * 4 + total es + length e ≤ page_size) where
  abbrev n : ℕ
  n = length es

  abbrev offset : ℕ
  offset = page_size - total es - length e

  -- What the loop over the slots leaves.
  module _ (q : Page) (run : shift_slots n slot p ≡ some q) (same_id : q.id ≡ p.id)
      (s : Shifted slot n p.bytes q.bytes) where
    abbrev inserted : Page
    inserted = record q { bytes = placed q.bytes slot n offset e }

    free_kept : free_space_offset q ≡ free_space_offset p
    unfolding free_space_offset get_field
    free_kept =
        ap index_lab.Bytes.be_decode
          (read_bytes_congr q.bytes p.bytes 3 2 (λ b i j. s.kept b (inl (omega arith))))

    insert_entry-inserted : insert_entry p slot e ≡ some inserted
    unfolding insert_entry set_num_entries set_free_space_offset set_field
    insert_entry-inserted =
        let size = word16 (length e) in
        let at = word16 (free_space_offset q + 65536 - size) in
        let size_same : size ≡ length e = omega arith in
        let at_same : at ≡ offset = omega (arith, free_kept, l.free) in
        let filled : Page = record q { bytes = write_bytes q.bytes offset e } in
        rw
          (
            l.count,
            run,
            copy_to_lem q at (word16 (at + size)) offset e at_same (omega (arith, at_same))
                (omega arith),
            at_same,
            size_same,
            set_slot_lem filled slot (new_slot q.bytes slot n offset e) (omega arith),
          )
          (let wrap : word16 (length es + 1) ≡ length es + 1 = omega arith in rw wrap)

    above_kept : (b : ℕ) → page_size - total es ≤ b → inserted.bytes b ≡ p.bytes b
    above_kept b h =
        placed_outside q.bytes slot n offset e (omega arith) (omega arith) le b (omega arith)
          (omega arith) (omega arith)
        ∙ s.kept b (omega arith)

    -- An old entry, found through its old slot at `j`, is held through its new slot at `k`.
    still_held :
        (j k : ℕ)
        → j < n
        → slot_at inserted.bytes k ≡ slot_at p.bytes j
        → get_or (insert_at slot e es) k [] ≡ get_or es j []
        → Holds inserted.bytes (slot_at inserted.bytes k) (get_or (insert_at slot e es) k []) offset
    still_held j k h same entry =
        subst (λ x. Holds inserted.bytes (slot_at inserted.bytes k) x offset) (sym entry)
          (Holds-kept p.bytes inserted.bytes (slot_at p.bytes j) (slot_at inserted.bytes k)
            (get_or es j []) (page_size - total es) offset (l.stored j h) same (omega arith)
            above_kept)

    other_slot : (j : ℕ) → j ≤ n → j ≢ slot → slot_at inserted.bytes j ≡ slot_at q.bytes j
    other_slot j h ne = placed_other q.bytes slot n offset e (omega arith) (omega arith) le j h ne

    stored_before :
        (k : ℕ)
        → k < slot
        → Holds inserted.bytes (slot_at inserted.bytes k) (get_or (insert_at slot e es) k []) offset
    stored_before k h =
        still_held k k (omega arith)
          (other_slot k (omega arith) (omega arith)
            ∙ slot_at_congr q.bytes p.bytes k (λ b i j. s.kept b (inl (omega arith))))
          (get_or-insert_at_lt slot k e [] es h le)

    stored_behind :
        (k : ℕ)
        → slot ≤ k
        → k < n
        → Holds inserted.bytes
            (slot_at inserted.bytes (suc k))
            (get_or (insert_at slot e es) (suc k) [])
            offset
    stored_behind k h m =
        still_held k (suc k) m (other_slot (suc k) (omega arith) (omega arith) ∙ s.moved k h m)
          (get_or-insert_at_gt slot k e [] es h)

    stored_new :
        Holds inserted.bytes
          (slot_at inserted.bytes slot)
          (get_or (insert_at slot e es) slot [])
          offset
    stored_new =
        subst (λ x. Holds inserted.bytes (slot_at inserted.bytes slot) x offset)
          (sym (get_or-insert_at_self slot e [] es le))
          (subst (λ r. Holds inserted.bytes r e offset)
            (sym (placed_slot q.bytes slot n offset e (omega arith) (omega arith) le))
            (record {
              above = omega arith;
              inside = omega arith;
              size = refl;
              content = placed_entry q.bytes slot n offset e (omega arith) (omega arith) le;
            }))

    stored_all :
        (k : ℕ)
        → k < suc n
        → Holds inserted.bytes (slot_at inserted.bytes k) (get_or (insert_at slot e es) k []) offset
    stored_all zero h = elim (dec_lt 0 slot) [
      | yes a ↦ stored_before 0 a
      | no a ↦
          subst
            (λ t.
              Holds inserted.bytes (slot_at inserted.bytes t) (get_or (insert_at slot e es) t [])
                offset)
            (omega arith) stored_new
    ]
    stored_all (suc k) h = elim (dec_lt (suc k) slot) [
      | yes a ↦ stored_before (suc k) a
      | no a ↦ elim (dec_lt slot (suc k)) [
        | yes b ↦ stored_behind k (omega arith) (omega arith)
        | no b ↦
            subst
              (λ t.
                Holds inserted.bytes (slot_at inserted.bytes t) (get_or (insert_at slot e es) t [])
                  offset)
              (omega arith) stored_new
      ]
    ]

    inserted-Layout : Layout inserted (insert_at slot e es)
    unfolding num_entries free_space_offset get_field
    inserted-Layout = record {
      count = omega (
        arith,
        length-insert_at slot e es,
        int_at-put_int_self
            (put_int
              (put_slot (write_bytes q.bytes offset e) slot (new_slot q.bytes slot n offset e)) 3 2
              offset)
            1 2 (n + 1) (omega arith),
      );
      free = omega (
        arith,
        total-insert_at slot e es,
        int_at-put_int_apart
            (put_int
              (put_slot (write_bytes q.bytes offset e) slot (new_slot q.bytes slot n offset e)) 3 2
              offset)
            1 2 (n + 1) 3 2 (inr (omega arith)),
        int_at-put_int_self
            (put_slot (write_bytes q.bytes offset e) slot (new_slot q.bytes slot n offset e)) 3 2
            offset (omega arith),
      );
      fits = omega (arith, total-insert_at slot e es, length-insert_at slot e es);
      stored = λ k h.
          let free_same : page_size - total (insert_at slot e es) ≡ offset =
            omega (arith, total-insert_at slot e es) in
          subst
            (λ f.
              Holds inserted.bytes (slot_at inserted.bytes k) (get_or (insert_at slot e es) k []) f)
            (sym free_same) (stored_all k (omega (arith, length-insert_at slot e es)));
    }

    inserted-SameHeader : SameHeader p inserted
    inserted-SameHeader = record {
      id = same_id;
      page_type =
          placed_outside q.bytes slot n offset e (omega arith) (omega arith) le 0 (omega arith)
            (omega arith) (omega arith)
          ∙ s.kept 0 (omega arith);
      links = λ b h k.
          placed_outside q.bytes slot n offset e (omega arith) (omega arith) le b (omega arith)
            (omega arith) (omega arith)
          ∙ s.kept b (omega arith);
    }

  -- On a well-formed page with room for the entry and its slot, `InsertEntry` at an index up to the
  -- number of entries does not panic. The new page is well formed, stores the entries with the new
  -- one inserted at the index, and has the ID, the type and the links of before.
  pub insert_entry-Layout :
      (q : Page) × (insert_entry p slot e ≡ some q)
      × Layout q (insert_at slot e es)
      × SameHeader p q
  insert_entry-Layout =
      let (q, run, id, s) = shift_slots_lem n slot p (omega arith) (Layout-Small p es l) in
      (
        inserted q run id s,
        insert_entry-inserted q run id s,
        inserted-Layout q run id s,
        inserted-SameHeader q run id s,
      )
