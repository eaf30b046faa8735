-- ===== src/Pool/Evict.antt =====
-- `evictIfFull` makes room, and no caller sees it.
use index_lab.Errors.{Result, ok, err}
use index_lab.Page.{PageId}
use index_lab.Pool.{Entry, Pool, find_entry, back, drop_victim, evict_if_full}
use index_lab.Pool.Lru.{back-some, remove_back-remove_entry, find_entry_sound}
use index_lab.Pool.View.{
  IsPool, IsPool-counters, Keeps, byte_at, write_page-Keeps, drop_victim-Keeps,
}
use index_lab.Prelude.{
  ◌+◌, ◌≤◌, ◌<◌, ◌≡◌, ◌⊎◌, inl, inr, refl, sym, ap, ◌∙◌, true, false, none, some, length, arith,
  Bool-cases, Option-cases,
}
use index_lab.Storage.{PageManager, word64, write_page}
use index_lab.Storage.ReadWrite.{IsAddressable, disk_byte, disk_byte-write_page_self}
use mathlib.Core.Path.{subst}
use native.Mathlib.Decide.{dec_lt}

-- What holds after an eviction that answers `r`.
pub record IsRoomier (p q : Pool) (r : Result (Unit {0})) : Type 0 where
  pub valid : IsPool q
  pub keeps : Keeps p q
  pub room : r ≡ ok tt → length q.lru < q.capacity
  pub absent : (id : PageId) → find_entry id p.lru ≡ none → find_entry id q.lru ≡ none

module _ (p : Pool) (v : IsPool p) where
  pub evict_none : length p.lru < p.capacity → evict_if_full p ≡ (p, ok tt)
  unfolding evict_if_full
  evict_none h = ground (arith, v.sizes)

  module _ (full : p.capacity ≤ length p.lru) (victim : Entry)
      (last : back p.lru ≡ some victim) where
    pub evict_clean : victim.dirty ≡ false → evict_if_full p ≡ (drop_victim p victim, ok tt)
    unfolding evict_if_full
    evict_clean h = ground (arith, v.sizes, v.positive)

    abbrev pm' : PageManager
    pm' = (write_page p.pm victim.page).0

    abbrev flushed : Pool
    flushed = record p { pm = pm'; dirty_flushes = word64 (p.dirty_flushes + 1) }

    pub evict_dirty :
        victim.dirty ≡ true
        → (write_page p.pm victim.page).1 ≡ ok tt
        → evict_if_full p ≡ (drop_victim flushed victim, ok tt)
    unfolding evict_if_full
    evict_dirty h wrote = ground (arith, v.sizes, v.positive)

    pub evict_failed :
        (x : index_lab.Errors.Error)
        → victim.dirty ≡ true
        → (write_page p.pm victim.page).1 ≡ err x
        → evict_if_full p ≡ (record p { pm = pm' }, err x)
    unfolding evict_if_full
    evict_failed x h wrote = ground (arith, v.sizes, v.positive)

    -- An entry that is not dirty is dropped, for the file has its page.
    IsRoomier-clean : victim.dirty ≡ false → IsRoomier p (drop_victim p victim) (ok tt)
    unfolding drop_victim
    IsRoomier-clean h =
        let (found, _) = remove_back-remove_entry p.lru victim v.entries last in
        let (valid, keeps, room, absent) =
          drop_victim-Keeps p victim v last (λ i b. v.clean victim.page_id victim found h i b) in
        record { valid = valid; keeps = keeps; room = λ e. room; absent = absent }

    -- A dirty entry is dropped once the file has its page.
    IsRoomier-dirty :
        victim.dirty ≡ true
        → (write_page p.pm victim.page).1 ≡ ok tt
        → IsRoomier p (drop_victim flushed victim) (ok tt)
    unfolding byte_at drop_victim
    IsRoomier-dirty h wrote =
        let (found, _) = remove_back-remove_entry p.lru victim v.entries last in
        let (same, own, place) = find_entry_sound victim.page_id p.lru victim v.entries found in
        let (valid, keeps) = write_page-Keeps p victim.page_id victim v found h in
        let flushed_valid : IsPool flushed =
          IsPool-counters (record p { pm = pm' }) p.hits p.misses p.evictions
            (word64 (p.dirty_flushes + 1)) valid in
        let (valid', keeps', room, absent) =
          drop_victim-Keeps flushed victim flushed_valid last (λ i b.
            ap (λ t. disk_byte pm' t i) (sym own)
            ∙ disk_byte-write_page_self p.pm victim.page i (subst IsAddressable (sym own) place)
                wrote b) in
        record {
          valid = valid';
          keeps = λ id i b a k read. keeps' id i b a k (keeps id i b a k read);
          room = λ e. room;
          absent = absent;
        }

    IsRoomier-failed :
        (x : index_lab.Errors.Error)
        → victim.dirty ≡ true
        → IsRoomier p (record p { pm = pm' }) (err x)
    IsRoomier-failed x h =
        let (found, _) = remove_back-remove_entry p.lru victim v.entries last in
        let (valid, keeps) = write_page-Keeps p victim.page_id victim v found h in
        record { valid = valid; keeps = keeps; room = λ e. cc; absent = λ id a. a }

  IsRoomier-of :
      (q : Pool) (r : Result (Unit {0}))
      → evict_if_full p ≡ (q, r)
      → IsRoomier p q r
      → IsRoomier p (evict_if_full p).0 (evict_if_full p).1
  IsRoomier-of q r e h = subst (λ t. IsRoomier p t.0 t.1) (sym e) h

  Result-cases :
      (r : Result (Unit {0})) → (r ≡ ok tt) ⊎ ((x : index_lab.Errors.Error) × (r ≡ err x))
  Result-cases (ok tt) = inl refl
  Result-cases (err x) = inr (x, refl)

  -- On a pool with the invariant, whatever the calls of the file answer, an eviction keeps the
  -- invariant and what can be read, and caches no new page; if it succeeds there is room for one
  -- more page.
  pub evict_if_full-IsRoomier : IsRoomier p (evict_if_full p).0 (evict_if_full p).1
  evict_if_full-IsRoomier = elim (dec_lt (length p.lru) p.capacity) [
    | yes h ↦
        IsRoomier-of p (ok tt) (evict_none h)
          (record { valid = v; keeps = λ id i b a k read. read; room = λ e. h; absent = λ id a. a })
    | no full ↦ elim (Option-cases (back p.lru)) [
      | inl empty ↦ absurd (omega (arith, back-some p.lru empty, v.positive))
      | inr (victim, last) ↦
          let full' : p.capacity ≤ length p.lru = omega arith in
          elim (Bool-cases victim.dirty) [
            | inr f ↦
                IsRoomier-of _ _ (evict_clean full' victim last f)
                  (IsRoomier-clean full' victim last f)
            | inl t ↦ elim (Result-cases (write_page p.pm victim.page).1) [
              | inl w ↦
                  IsRoomier-of _ _ (evict_dirty full' victim last t w)
                    (IsRoomier-dirty full' victim last t w)
              | inr (x, w) ↦
                  IsRoomier-of _ _ (evict_failed full' victim last x t w)
                    (IsRoomier-failed full' victim last x t)
            ]
          ]
    ]
  ]
