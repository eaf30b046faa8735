-- ===== src/Pool/View.antt =====
-- The invariant of the pool, and what a caller can read through it.
use index_lab.Page.{PageId, page_size}
use index_lab.Pool.{
  push_front, Entry, Pool, new_pool, mem_id, delete_id, find_entry, remove_back, back, lookup,
  drop_victim,
}
use index_lab.Pool.Lru.{
  ids, AreEntries, find_entry-mem_id, mem_id-find_entry, mem_id-found, find_entry_sound,
  find_entry-remove_entry, mem_id-remove_entry, remove_entry-AreEntries, length-remove_entry,
  remove_back-remove_entry, length-delete_id,
}
use index_lab.Prelude.{
  ℕ, ◌≤◌, ◌<◌, ◌≡◌, ◌≢◌, inl, inr, refl, sym, ap, ◌∙◌, true, false, Option, none, some, List, [],
  ◌∷◌, length, arith, ◌==◌, if◌then◌else◌, Option-cases,
}
use index_lab.Prelude.Int.{ℤ, pos, negsuc}
use index_lab.Storage.{PageManager, write_page}
use index_lab.Storage.ReadWrite.{IsAddressable, disk_byte, disk_byte-write_page_ne}
use mathlib.Core.Path.{subst}
use native.Mathlib.Decide.{ℕ_discrete}

abbrev pub Distinct : List PageId → Type 0
Distinct [] = Unit
Distinct (k ∷ ks) = (mem_id k ks ≡ false) × Distinct ks

-- The map and the list agree, no page is cached twice or beyond the capacity, and an entry that is
-- not dirty is the page of the file.
pub record IsPool (p : Pool) : Type 0 where
  pub positive : 1 ≤ p.capacity
  pub bound : length p.lru ≤ p.capacity
  pub sizes : length p.items ≡ length p.lru
  pub distinct : Distinct p.items
  pub keys : (id : PageId) → mem_id id p.items ≡ mem_id id (ids p.lru)
  pub entries : AreEntries p.lru
  pub clean :
      (id : PageId) (e : Entry)
      → find_entry id p.lru ≡ some e
      → e.dirty ≡ false
      → (i : ℕ) → i < page_size
      → disk_byte p.pm id i ≡ some (e.page.bytes i)

-- Byte `i` of page `id` as a caller of the pool reads it: from the cache, or else from the file.
unfoldable pub byte_at : Pool → PageId → ℕ → Option ℕ
byte_at p id i = elim (find_entry id p.lru) [
  | some e ↦ some (e.page.bytes i)
  | none ↦ disk_byte p.pm id i
]

-- What could be read before reads the same after.
abbrev pub Keeps : Pool → Pool → Type 0
Keeps p q =
    (id : PageId) (i b : ℕ)
    → IsAddressable id
    → i < page_size
    → byte_at p id i ≡ some b
    → byte_at q id i ≡ some b

pub lookup-find_entry : (p : Pool) (id : PageId) → IsPool p → lookup p id ≡ find_entry id p.lru
unfolding lookup
lookup-find_entry p id v = ground (arith, v.keys id, find_entry-mem_id id p.lru)

pub mem_id-delete_id :
    (id other : PageId) (ks : List PageId)
    → Distinct ks
    → mem_id other (delete_id id ks) ≡ (if id == other then false else mem_id other ks)
unfolding mem_id delete_id
mem_id-delete_id id other [] d = ground arith
mem_id-delete_id id other (k ∷ ks) d = ground (arith, mem_id-delete_id id other ks d.1, d.0)

delete_id-Distinct : (id : PageId) (ks : List PageId) → Distinct ks → Distinct (delete_id id ks)
unfolding delete_id
delete_id-Distinct id [] d = tt
delete_id-Distinct id (k ∷ ks) d =
    ground (arith, delete_id-Distinct id ks d.1, mem_id-delete_id id k ks d.1)

-- Writing a dirty entry's page to the file, whether the write succeeds or not, is not seen.
pub write_page-Keeps :
    (p : Pool) (id : PageId) (e : Entry)
    → IsPool p
    → find_entry id p.lru ≡ some e
    → e.dirty ≡ true
    → IsPool (record p { pm = (write_page p.pm e.page).0 })
      × Keeps p (record p { pm = (write_page p.pm e.page).0 })
unfolding byte_at
write_page-Keeps p id e v found dirty =
    let (same, own, place) = find_entry_sound id p.lru e v.entries found in
    let place' : IsAddressable e.page.id = subst IsAddressable (sym own) place in
    (
      record {
        positive = v.positive;
        bound = v.bound;
        sizes = v.sizes;
        distinct = v.distinct;
        keys = v.keys;
        entries = v.entries;
        clean = λ k x h not_dirty i b.
            let other : k ≢ e.page.id =
              λ eq. ground (arith, ap (λ t. find_entry t p.lru) (eq ∙ own)) in
            disk_byte-write_page_ne p.pm e.page k i (x.page.bytes i) place'
              (find_entry_sound k p.lru x v.entries h).2 other b (v.clean k x h not_dirty i b);
      },
      λ k i b addressable h read. elim (Option-cases (find_entry k p.lru)) [
        | inr (x, hit) ↦ ground arith
        | inl miss ↦
            let other : k ≢ e.page.id =
              λ eq. ground (arith, ap (λ t. find_entry t p.lru) (eq ∙ own)) in
            ground (arith, disk_byte-write_page_ne p.pm e.page k i b place' addressable other h)
      ],
    )

-- Dropping the last entry is not seen if the file has its page.
pub drop_victim-Keeps :
    (p : Pool) (victim : Entry)
    → IsPool p
    → back p.lru ≡ some victim
    → ((i : ℕ) → i < page_size → disk_byte p.pm victim.page_id i ≡ some (victim.page.bytes i))
    → IsPool (drop_victim p victim)
      × Keeps p (drop_victim p victim)
      × (length (drop_victim p victim).lru < p.capacity)
      × ((id : PageId)
          → find_entry id p.lru ≡ none
          → find_entry id (drop_victim p victim).lru ≡ none)
unfolding byte_at drop_victim
drop_victim-Keeps p victim v last stored =
    let k = victim.page_id in
    let (found, taken) = remove_back-remove_entry p.lru victim v.entries last in
    let shorter = length-remove_entry k p.lru victim found in
    let there : mem_id k p.items ≡ true = v.keys k ∙ mem_id-found k p.lru victim found in
    let size = length-delete_id k p.items there in
    let after : (id : PageId)
        → find_entry id (remove_back p.lru) ≡ (if k == id then none else find_entry id p.lru) =
      λ id. rw taken (find_entry-remove_entry k id p.lru v.entries) in
    (
      record {
        positive = v.positive;
        bound = rw taken (omega (arith, v.bound, shorter));
        sizes = rw taken (omega (arith, v.sizes, shorter, size));
        distinct = delete_id-Distinct k p.items v.distinct;
        keys = λ id. rw (
          taken,
          mem_id-delete_id k id p.items v.distinct,
          mem_id-remove_entry k id p.lru v.entries,
          v.keys id,
        );
        entries = rw taken (remove_entry-AreEntries k p.lru v.entries);
        clean = λ id e h not_dirty i b. v.clean id e (ground (arith, after id, h)) not_dirty i b;
      },
      λ id i b addressable h read. elim (ℕ_discrete k id) [
        | yes same ↦
            let seen : find_entry id p.lru ≡ some victim =
              ap (λ t. find_entry t p.lru) (sym same) ∙ found in
            let disk : disk_byte p.pm id i ≡ some (victim.page.bytes i) =
              ap (λ t. disk_byte p.pm t i) (sym same) ∙ stored i h in
            ground (arith, after id, seen, disk)
        | no other ↦ ground (arith, after id)
      ],
      rw taken (omega (arith, v.bound, shorter)),
      λ id absent. ground (arith, after id),
    )

-- The counters play no part in the invariant.
pub IsPool-counters :
    (p : Pool) (h m e f : ℕ)
    → IsPool p
    → IsPool (record p { hits = h; misses = m; evictions = e; dirty_flushes = f })
IsPool-counters p h m e f v = record {
  positive = v.positive;
  bound = v.bound;
  sizes = v.sizes;
  distinct = v.distinct;
  keys = v.keys;
  entries = v.entries;
  clean = v.clean;
}

pub mem_id_cons :
    (a b k : PageId) (xs ys : List PageId)
    → a ≡ b
    → mem_id k xs ≡ mem_id k ys
    → mem_id k (a ∷ xs) ≡ mem_id k (b ∷ ys)
unfolding mem_id
mem_id_cons a b k xs ys h e = ground arith

pub found_first :
    (e : Entry) (es : List Entry) (k : PageId) (x : Entry)
    → e.page_id ≡ k
    → find_entry k (e ∷ es) ≡ some x
    → e ≡ x
unfolding find_entry
found_first e es k x same h = ground arith

pub found_later :
    (e : Entry) (es : List Entry) (k : PageId) (x : Entry)
    → e.page_id ≢ k
    → find_entry k (e ∷ es) ≡ some x
    → find_entry k es ≡ some x
unfolding find_entry
found_later e es k x other h = ground arith

-- A new entry at the front hides nothing but its own page.
pub push_front-IsPool :
    (p : Pool) (id : PageId) (e : Entry)
    → IsPool p
    → find_entry id p.lru ≡ none
    → length p.lru < p.capacity
    → e.page_id ≡ id
    → e.page.id ≡ id
    → IsAddressable id
    → (e.dirty ≡ false → (i : ℕ) → i < page_size → disk_byte p.pm id i ≡ some (e.page.bytes i))
    → IsPool (push_front p id e)
unfolding push_front
push_front-IsPool p id e v absent room own page place clean = record {
  positive = v.positive;
  bound = omega arith;
  sizes = omega (arith, v.sizes);
  distinct = (v.keys id ∙ mem_id-find_entry id p.lru absent, v.distinct);
  keys = λ k. mem_id_cons id e.page_id k p.items (ids p.lru) (sym own) (v.keys k);
  entries = (
    ap (λ t. mem_id t (ids p.lru)) own ∙ mem_id-find_entry id p.lru absent,
    page ∙ sym own,
    subst IsAddressable (sym own) place,
    v.entries,
  );
  clean = λ k x h not_dirty i b. elim (ℕ_discrete e.page_id k) [
    | yes same ↦
        let here : e ≡ x = found_first e p.lru k x same h in
        let flag : e.dirty ≡ false = ap (λ t. t.dirty) here ∙ not_dirty in
        ap (λ t. disk_byte p.pm t i) (sym same ∙ own)
        ∙ clean flag i b
        ∙ ap (λ t. some (t.page.bytes i)) here
    | no other ↦ v.clean k x (found_later e p.lru k x other h) not_dirty i b
  ];
}

-- A new pool satisfies the invariant, whatever capacity it was asked for.
pub new_pool-IsPool : (pm : PageManager) (capacity : ℤ) → IsPool (new_pool pm capacity)
unfolding new_pool find_entry mem_id
new_pool-IsPool pm capacity = record {
  positive = positive capacity;
  bound = omega arith;
  sizes = refl;
  distinct = tt;
  keys = λ id. refl;
  entries = tt;
  clean = λ id e h. absurd (ground (arith, h));
}
  where
    positive : (c : ℤ) → 1 ≤ (new_pool pm c).capacity
    positive (pos n) = ground arith
    positive (negsuc n) = omega arith
