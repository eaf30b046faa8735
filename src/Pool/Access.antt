-- ===== src/Pool/Access.antt =====
-- `GetPage`, `Put` and `MarkDirty`: the cache is not seen.
use index_lab.Errors.{Error, Result, ok, err}
use index_lab.Page.{Page, PageId, page_size}
use index_lab.Pool.{
  Entry, Pool, mem_id, find_entry, remove_entry, push_front, evict_if_full, get_page,
}
use index_lab.Pool.Evict.{IsRoomier, evict_if_full-IsRoomier}
use index_lab.Pool.Lru.{
  ids, mem_id-found, find_entry_sound, find_entry-remove_entry, mem_id-remove_entry,
  remove_entry-AreEntries, length-remove_entry,
}
use index_lab.Pool.View.{
  IsPool, IsPool-counters, Keeps, byte_at, lookup-find_entry, push_front-IsPool, found_first,
}
use index_lab.Prelude.{
  ℕ, ◌+◌, ◌<◌, ◌≡◌, ◌⊎◌, inl, inr, refl, sym, ap, ◌∙◌, false, none, some, ◌∷◌, arith, ◌==◌,
  if◌then◌else◌, Option-cases,
}
use index_lab.Storage.{word64, read_page}
use index_lab.Storage.ReadWrite.{IsAddressable, disk_byte, disk_byte-read_page, read_page-disk_byte}
use mathlib.Core.Path.{subst}
use native.Mathlib.Decide.{ℕ_discrete}

module _ (p : Pool) (id : PageId) (e e' : Entry) (v : IsPool p)
    (found : find_entry id p.lru ≡ some e) (own : e'.page_id ≡ id) (page : e'.page.id ≡ id)
    (clean : e'.dirty ≡ false
      → (i : ℕ) → i < page_size
      → disk_byte p.pm id i ≡ some (e'.page.bytes i)) where
  abbrev pub fronted : Pool
  fronted = record p { lru = e' ∷ remove_entry id p.lru }

  mem_id-fronted :
      (k : PageId) → mem_id k p.items ≡ mem_id k (e'.page_id ∷ ids (remove_entry id p.lru))
  unfolding mem_id
  mem_id-fronted k = ground (
    arith,
    v.keys k,
    mem_id-remove_entry id k p.lru v.entries,
    mem_id-found id p.lru e found,
    ap (λ t. mem_id t (ids p.lru)) own,
  )

  pub find_entry-fronted :
      (k : PageId) → find_entry k fronted.lru ≡ (if id == k then some e' else find_entry k p.lru)
  unfolding find_entry
  find_entry-fronted k = ground (arith, find_entry-remove_entry id k p.lru v.entries)

  -- An entry, perhaps with another page, may move to the front.
  pub fronted-IsPool : IsPool fronted
  fronted-IsPool =
      let shorter = length-remove_entry id p.lru e found in
      let gone = mem_id-remove_entry id id p.lru v.entries in
      let absent : mem_id id (ids (remove_entry id p.lru)) ≡ false = ground (arith, gone) in
      record {
        positive = v.positive;
        bound = omega (arith, v.bound, shorter);
        sizes = omega (arith, v.sizes, shorter);
        distinct = v.distinct;
        keys = mem_id-fronted;
        entries = (
          ap (λ t. mem_id t (ids (remove_entry id p.lru))) own ∙ absent,
          page ∙ sym own,
          subst IsAddressable (sym own) (find_entry_sound id p.lru e v.entries found).2,
          remove_entry-AreEntries id p.lru v.entries,
        );
        clean = λ k x h not_dirty i b. elim (ℕ_discrete id k) [
          | yes same ↦
              let here : e' ≡ x = found_first e' (remove_entry id p.lru) k x (own ∙ same) h in
              ap (λ t. disk_byte p.pm t i) (sym same)
              ∙ clean (ap (λ t. t.dirty) here ∙ not_dirty) i b
              ∙ ap (λ t. some (t.page.bytes i)) here
          | no other ↦ v.clean k x (ground (arith, find_entry-fronted k, h)) not_dirty i b
        ];
      }

-- A successful read has the ID and the bytes that the pool showed before.
abbrev pub IsRead : Pool → PageId → Result Page → Type 0
IsRead p id (err x) = Unit
IsRead p id (ok pg) = (pg.id ≡ id) × ((i : ℕ) → i < page_size → byte_at p id i ≡ some (pg.bytes i))

abbrev pub Result-cases {ℓ} : {A : Type ℓ} → Result A → Type ℓ
Result-cases {A} r = ((a : A) × (r ≡ ok a)) ⊎ ((x : Error) × (r ≡ err x))

pub result_cases {ℓ} : {A : Type ℓ} (r : Result A) → Result-cases r
result_cases (ok a) = inl (a, refl)
result_cases (err x) = inr (x, refl)

-- The invariant, what can be read, and the answer, after a call that ends in `t`.
abbrev pub Got : Pool → PageId → Pool × Result Page → Type 0
Got p id (q, r) = IsPool q × Keeps p q × IsRead p id r

module _ (p : Pool) (id : PageId) (v : IsPool p) (place : IsAddressable id) where
  module _ (e : Entry) (found : find_entry id p.lru ≡ some e) where
    abbrev touched : Pool
    touched =
        record (fronted p id e e v found (find_entry_sound id p.lru e v.entries found).0
          (find_entry_sound id p.lru e v.entries found).1 (v.clean id e found)) {
            hits = word64 (p.hits + 1);
          }

    get_page-touched : get_page p id ≡ (touched, ok e.page)
    unfolding get_page
    get_page-touched = ground (arith, lookup-find_entry p id v, found)

    touched-Got : Got p id (touched, ok e.page)
    unfolding byte_at
    touched-Got =
        let (own, page, _) = find_entry_sound id p.lru e v.entries found in
        let clean = v.clean id e found in
        (
          IsPool-counters (fronted p id e e v found own page clean) (word64 (p.hits + 1)) p.misses
              p.evictions p.dirty_flushes (fronted-IsPool p id e e v found own page clean),
          λ k i b a h read. elim (ℕ_discrete id k) [
            | yes same ↦
                let here : find_entry k p.lru ≡ some e =
                  ap (λ t. find_entry t p.lru) (sym same) ∙ found in
                ground (arith, find_entry-fronted p id e e v found own page clean k)
            | no other ↦ ground (arith, find_entry-fronted p id e e v found own page clean k)
          ],
          (page, λ i b. ground (arith, found)),
        )

  module _ (absent : find_entry id p.lru ≡ none) where
    -- After the read, with the miss counted.
    abbrev missed : Pool
    missed = record p { pm = (read_page p.pm id).0; misses = word64 (p.misses + 1) }

    missed-IsPool : IsPool missed
    missed-IsPool = record {
      positive = v.positive;
      bound = v.bound;
      sizes = v.sizes;
      distinct = v.distinct;
      keys = v.keys;
      entries = v.entries;
      clean = λ k x h d i b. disk_byte-read_page p.pm id k i ∙ v.clean k x h d i b;
    }

    missed-Keeps : Keeps p missed
    unfolding byte_at
    missed-Keeps k i b a h read = ground (arith, disk_byte-read_page p.pm id k i)

    abbrev roomier : Pool
    roomier = (evict_if_full missed).0

    roomier-IsRoomier : IsRoomier missed roomier (evict_if_full missed).1
    roomier-IsRoomier = evict_if_full-IsRoomier missed missed-IsPool

    get_page_unread : (x : Error) → (read_page p.pm id).1 ≡ err x → get_page p id ≡ (missed, err x)
    unfolding get_page
    get_page_unread x h = ground (arith, lookup-find_entry p id v, absent, h)

    module _ (pg : Page) (read : (read_page p.pm id).1 ≡ ok pg) where
      abbrev cached : Pool
      cached = push_front roomier id (record { page_id = id; page = pg; dirty = false })

      get_page_stuck :
          (x : Error) → (evict_if_full missed).1 ≡ err x → get_page p id ≡ (roomier, err x)
      unfolding get_page
      get_page_stuck x h = ground (arith, lookup-find_entry p id v, absent, read, h)

      get_page-cached : (evict_if_full missed).1 ≡ ok tt → get_page p id ≡ (cached, ok pg)
      unfolding get_page
      get_page-cached h = ground (arith, lookup-find_entry p id v, absent, read, h)

      shown : (i : ℕ) → i < page_size → byte_at p id i ≡ some (pg.bytes i)
      unfolding byte_at
      shown i h = ground (arith, absent, (read_page-disk_byte p.pm id i place read h).1)

      stored : (i : ℕ) → i < page_size → disk_byte roomier.pm id i ≡ some (pg.bytes i)
      unfolding byte_at
      stored i h =
          let before = missed-Keeps id i (pg.bytes i) place h (shown i h) in
          let after = roomier-IsRoomier.keeps id i (pg.bytes i) place h before in
          ground (arith, after, roomier-IsRoomier.absent id absent)

      cached-Got : (evict_if_full missed).1 ≡ ok tt → Got p id (cached, ok pg)
      unfolding byte_at push_front find_entry
      cached-Got h =
          let r = roomier-IsRoomier in
          let own = (read_page-disk_byte p.pm id 0 place read (omega arith)).0 in
          (
            push_front-IsPool roomier id (record { page_id = id; page = pg; dirty = false }) r.valid
                (r.absent id absent) (r.room h) refl own place (λ d. stored),
            λ k i b a m seen. elim (ℕ_discrete id k) [
              | yes same ↦
                  let here : byte_at p k i ≡ some (pg.bytes i) =
                    ap (λ t. byte_at p t i) (sym same) ∙ shown i m in
                  ground (arith, here)
              | no other ↦
                  let after = r.keeps k i b a m (missed-Keeps k i b a m seen) in
                  ground (arith, after)
            ],
            (own, shown),
          )

  Got-of : (t : Pool × Result Page) → get_page p id ≡ t → Got p id t → Got p id (get_page p id)
  Got-of t e h = subst (Got p id) (sym e) h

  -- On a pool with the invariant and a page ID whose byte offset an int64 holds, `GetPage` keeps
  -- the invariant and everything that can be read, whatever the calls of the file answer; a page
  -- that it returns has the ID and the bytes that the pool showed.
  pub get_page-Got : Got p id (get_page p id)
  get_page-Got = elim (Option-cases (find_entry id p.lru)) [
    | inr (e, found) ↦ Got-of _ (get_page-touched e found) (touched-Got e found)
    | inl absent ↦ elim (result_cases (read_page p.pm id).1) [
      | inr (x, h) ↦
          Got-of _ (get_page_unread absent x h) (missed-IsPool absent, missed-Keeps absent, tt)
      | inl (pg, h) ↦ elim (result_cases (evict_if_full (missed absent)).1) [
        | inr (x, k) ↦
            let r = roomier-IsRoomier absent in
            Got-of _ (get_page_stuck absent pg h x k) (
              r.valid,
              λ j i b a m seen. r.keeps j i b a m (missed-Keeps absent j i b a m seen),
              tt,
            )
        | inl (u, k) ↦ Got-of _ (get_page-cached absent pg h k) (cached-Got absent pg h k)
      ]
    ]
  ]
