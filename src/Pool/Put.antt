-- ===== src/Pool/Put.antt =====
-- `Put`: the cache takes a page that the file does not have yet.
use index_lab.Errors.{Error, Result, ok, err}
use index_lab.Page.{Page, PageId, page_size}
use index_lab.Pool.{Entry, Pool, find_entry, push_front, evict_if_full, put}
use index_lab.Pool.Access.{fronted, find_entry-fronted, fronted-IsPool, result_cases}
use index_lab.Pool.Evict.{evict_if_full-IsRoomier}
use index_lab.Pool.Lru.{find_entry_sound}
use index_lab.Pool.View.{IsPool, Keeps, byte_at, lookup-find_entry, push_front-IsPool}
use index_lab.Prelude.{
  ℕ, ◌<◌, ◌≡◌, ◌≢◌, inl, inr, refl, sym, true, false, none, some, arith, Option-cases,
}
use index_lab.Storage.ReadWrite.{IsAddressable, disk_byte}
use mathlib.Core.Path.{subst}

-- What a caller reads after `Put`: the new page, and every other page as before; after an error all
-- pages as before.
abbrev pub IsStored : Pool → PageId → Page → Pool → Result (Unit {0}) → Type 0
IsStored p id pg q (err x) = IsPool q × Keeps p q
IsStored p id pg q (ok _) =
    IsPool q
    × ((i : ℕ) → i < page_size → byte_at q id i ≡ some (pg.bytes i))
    × ((k : PageId) (i b : ℕ)
        → id ≢ k
        → IsAddressable k
        → i < page_size
        → byte_at p k i ≡ some b
        → byte_at q k i ≡ some b)

module _ (p : Pool) (id : PageId) (pg : Page) (v : IsPool p) (place : IsAddressable id)
    (own : pg.id ≡ id) where
  abbrev fresh : Entry
  fresh = record { page_id = id; page = pg; dirty = true }

  module _ (e : Entry) (found : find_entry id p.lru ≡ some e) where
    abbrev changed : Entry
    changed = record e { page = pg; dirty = true }

    same_id : e.page_id ≡ id
    same_id = (find_entry_sound id p.lru e v.entries found).0

    clean_changed :
        changed.dirty ≡ false → (i : ℕ) → i < page_size → disk_byte p.pm id i ≡ some (pg.bytes i)
    clean_changed d = absurd (ground (arith, d))

    abbrev replaced : Pool
    replaced = fronted p id e changed v found same_id own clean_changed

    put-replaced : put p id pg ≡ (replaced, ok tt)
    unfolding put
    put-replaced = ground (arith, lookup-find_entry p id v, found)

    replaced-IsStored : IsStored p id pg replaced (ok tt)
    unfolding byte_at
    replaced-IsStored =
        let seen = find_entry-fronted p id e changed v found same_id own clean_changed in
        (
          fronted-IsPool p id e changed v found same_id own clean_changed,
          λ i b. ground (arith, seen id),
          λ k i b other a m read. ground (arith, seen k),
        )

  module _ (absent : find_entry id p.lru ≡ none) where
    abbrev roomy : Pool
    roomy = (evict_if_full p).0

    put_stuck : (x : Error) → (evict_if_full p).1 ≡ err x → put p id pg ≡ (roomy, err x)
    unfolding put
    put_stuck x h = ground (arith, lookup-find_entry p id v, absent, h)

    put_pushed : (evict_if_full p).1 ≡ ok tt → put p id pg ≡ (push_front roomy id fresh, ok tt)
    unfolding put
    put_pushed h = ground (arith, lookup-find_entry p id v, absent, h)

    pushed-IsStored :
        (evict_if_full p).1 ≡ ok tt → IsStored p id pg (push_front roomy id fresh) (ok tt)
    unfolding byte_at push_front find_entry
    pushed-IsStored h =
        let r = evict_if_full-IsRoomier p v in
        (
          push_front-IsPool roomy id fresh r.valid (r.absent id absent) (r.room h) refl own place
              (λ d. absurd (ground (arith, d))),
          λ i b. ground arith,
          λ k i b other a m read. let after = r.keeps k i b a m read in ground (arith, after),
        )

  IsStored-of :
      (q : Pool) (r : Result (Unit {0}))
      → put p id pg ≡ (q, r)
      → IsStored p id pg q r
      → IsStored p id pg (put p id pg).0 (put p id pg).1
  IsStored-of q r e h = subst (λ t. IsStored p id pg t.0 t.1) (sym e) h

  -- `Put` of a page under its own ID, whose byte offset an int64 holds, keeps the pool's invariant,
  -- whatever the calls of the file answer. After a success a caller reads the new page, and every
  -- other page as before; after an error every page as before.
  pub put-IsStored : IsStored p id pg (put p id pg).0 (put p id pg).1
  put-IsStored = elim (Option-cases (find_entry id p.lru)) [
    | inr (e, found) ↦ IsStored-of _ _ (put-replaced e found) (replaced-IsStored e found)
    | inl absent ↦ elim (result_cases (evict_if_full p).1) [
      | inl (u, h) ↦ IsStored-of _ _ (put_pushed absent h) (pushed-IsStored absent h)
      | inr (x, h) ↦
          let r = evict_if_full-IsRoomier p v in
          IsStored-of _ _ (put_stuck absent x h) (r.valid, r.keeps)
    ]
  ]
