-- ===== src/Store/View.antt =====
-- What can be read from a store, and how reads and writes act on it.
use index_lab.Errors.{Result, ok, err}
use index_lab.Page.{Page, PageId, page_size}
use index_lab.Pool.{Pool, back, evict_if_full, drop_victim, push_front, get_page, put}
use index_lab.Pool.Access.{result_cases, get_page-Got, IsRead}
use index_lab.Pool.Put.{IsStored, put-IsStored}
use index_lab.Pool.View.{IsPool, byte_at}
use index_lab.Prelude.{
  ℕ, ◌+◌, ◌<◌, ◌≡◌, ◌≢◌, inl, inr, refl, sym, ap, ◌∙◌, Option, some, arith, Option-cases,
}
use index_lab.Storage.{PageManager, word64, allocate_page_id, read_page, write_page}
use index_lab.Storage.ReadWrite.{
  IsAddressable, disk_byte, disk_byte-read_page, read_page-disk_byte, disk_byte-write_page_ne,
  disk_byte-write_page_self,
}
use index_lab.Store.{Store, direct, pooled, manager, read, write, allocate}
use mathlib.Core.Path.{subst}

-- The pool's invariant, where there is a pool.
abbrev pub IsStore : Store → Type 0
IsStore (direct pm) = Unit
IsStore (pooled p) = IsPool p

-- Byte `i` of page `id`, as a caller reads it.
abbrev pub byte : Store → PageId → ℕ → Option ℕ
byte (direct pm) = disk_byte pm
byte (pooled p) = byte_at p

-- What could be read before, except from page `but`, reads the same after.
abbrev pub KeepsOthers : PageId → Store → Store → Type 0
KeepsOthers but s t =
    (id : PageId) (i b : ℕ)
    → but ≢ id
    → IsAddressable id
    → i < page_size
    → byte s id i ≡ some b
    → byte t id i ≡ some b

abbrev pub KeepsAll : Store → Store → Type 0
KeepsAll s t =
    (id : PageId) (i b : ℕ)
    → IsAddressable id
    → i < page_size
    → byte s id i ≡ some b
    → byte t id i ≡ some b

-- The page has the ID and is what the store shows under it.
abbrev pub Shows : Store → Page → Type 0
Shows s pg = (i : ℕ) → i < page_size → byte s pg.id i ≡ some (pg.bytes i)

abbrev pub IsReadFrom : Store → PageId → Result Page → Type 0
IsReadFrom s id (err x) = Unit
IsReadFrom s id (ok pg) = (pg.id ≡ id) × Shows s pg

-- With a pool or without, `readPage` of a page whose byte offset an int64 holds keeps the invariant
-- and all that can be read; a page that it returns is the page that the store shows.
pub read-IsReadFrom :
    (s : Store) (id : PageId)
    → IsStore s
    → IsAddressable id
    → IsStore (read s id).0 × KeepsAll s (read s id).0 × IsReadFrom s id (read s id).1
unfolding read
read-IsReadFrom (direct pm) id v place = (
  tt,
  λ k i b a h e. disk_byte-read_page pm id k i ∙ e,
  elim (result_cases (read_page pm id).1) [
    | inl (pg, e) ↦
        let own = (read_page-disk_byte pm id 0 place e (omega arith)).0 in
        subst (IsReadFrom (direct pm) id) (sym e)
          (own, λ i h. ap (λ t. disk_byte pm t i) own ∙ (read_page-disk_byte pm id i place e h).1)
    | inr (x, e) ↦ subst (IsReadFrom (direct pm) id) (sym e) tt
  ],
)
read-IsReadFrom (pooled p) id v place =
    let (valid, keeps, got) = get_page-Got p id v place in
    (
      valid,
      keeps,
      elim (result_cases (get_page p id).1) [
        | inl (pg, e) ↦
            let (own, shown) : IsRead p id (ok pg) = subst (IsRead p id) e got in
            subst (IsReadFrom (pooled p) id) (sym e)
              (own, λ i h. ap (λ t. byte_at p t i) own ∙ shown i h)
        | inr (x, e) ↦ subst (IsReadFrom (pooled p) id) (sym e) tt
      ],
    )

-- What a write that answers `r` has made of the page.
abbrev pub IsWritten : Store → Page → Result (Unit {0}) → Type 0
IsWritten t pg (ok _) = Shows t pg
IsWritten t pg (err x) = Unit

-- With a pool or without, `writePage` of a page whose byte offset an int64 holds keeps the
-- invariant and what can be read of other pages; if it succeeds, the page is read from then on.
pub write-IsWritten :
    (s : Store) (pg : Page)
    → IsStore s
    → IsAddressable pg.id
    → IsStore (write s pg).0
      × KeepsOthers pg.id s (write s pg).0
      × IsWritten (write s pg).0 pg (write s pg).1
unfolding write
write-IsWritten (direct pm) pg v place = (
  tt,
  λ k i b other a h e. disk_byte-write_page_ne pm pg k i b place a (λ x. other (sym x)) h e,
  elim (result_cases (write_page pm pg).1) [
    | inl (u, e) ↦
        subst (IsWritten (direct (write_page pm pg).0) pg) (sym e)
          (λ i h. disk_byte-write_page_self pm pg i place e h)
    | inr (x, e) ↦ subst (IsWritten (direct (write_page pm pg).0) pg) (sym e) tt
  ],
)
write-IsWritten (pooled p) pg v place =
    let stored = put-IsStored p pg.id pg v place refl in
    elim (result_cases (put p pg.id pg).1) [
      | inl (u, e) ↦
          let (valid, shown, others) : IsStored p pg.id pg (put p pg.id pg).0 (ok u) =
            subst (IsStored p pg.id pg (put p pg.id pg).0) e stored in
          (valid, others, subst (IsWritten (pooled (put p pg.id pg).0) pg) (sym e) shown)
      | inr (x, e) ↦
          let (valid, keeps) : IsStored p pg.id pg (put p pg.id pg).0 (err x) =
            subst (IsStored p pg.id pg (put p pg.id pg).0) e stored in
          (
            valid,
            λ k i b other a h read. keeps k i b a h read,
            subst (IsWritten (pooled (put p pg.id pg).0) pg) (sym e) tt,
          )
    ]

abbrev pub next_id : Store → PageId
next_id s = (manager s).next_page_id

read_page-next :
    (pm : PageManager) (id : PageId) → (read_page pm id).0.next_page_id ≡ pm.next_page_id
unfolding read_page
read_page-next pm id = ground arith

write_page-next :
    (pm : PageManager) (pg : Page) → (write_page pm pg).0.next_page_id ≡ pm.next_page_id
unfolding write_page
write_page-next pm pg = ground arith

evict-next : (p : Pool) → (evict_if_full p).0.pm.next_page_id ≡ p.pm.next_page_id
unfolding evict_if_full drop_victim
evict-next p = elim (Option-cases (back p.lru)) [
  | inl empty ↦ ground arith
  | inr (victim, last) ↦ ground (arith, write_page-next p.pm victim.page)
]

get_page-next : (p : Pool) (id : PageId) → (get_page p id).0.pm.next_page_id ≡ p.pm.next_page_id
unfolding get_page push_front
get_page-next p id =
    let missed : Pool = record p { pm = (read_page p.pm id).0; misses = word64 (p.misses + 1) } in
    ground (arith, read_page-next p.pm id, evict-next missed)

put-next :
    (p : Pool) (id : PageId) (pg : Page) → (put p id pg).0.pm.next_page_id ≡ p.pm.next_page_id
unfolding put push_front
put-next p id pg = ground (arith, evict-next p)

-- Only an allocation changes the next page ID.
pub read-next_id : (s : Store) (id : PageId) → next_id (read s id).0 ≡ next_id s
unfolding read
read-next_id (direct pm) id = read_page-next pm id
read-next_id (pooled p) id = get_page-next p id

pub write-next_id : (s : Store) (pg : Page) → next_id (write s pg).0 ≡ next_id s
unfolding write
write-next_id (direct pm) pg = write_page-next pm pg
write-next_id (pooled p) pg = put-next p pg.id pg

pub allocate-KeepsAll : (s : Store) → IsStore s → IsStore (allocate s).0 × KeepsAll s (allocate s).0
unfolding allocate allocate_page_id byte_at disk_byte
allocate-KeepsAll (direct pm) v = (tt, λ k i b a h e. ground arith)
allocate-KeepsAll (pooled p) v = (
  record {
    positive = v.positive;
    bound = v.bound;
    sizes = v.sizes;
    distinct = v.distinct;
    keys = v.keys;
    entries = v.entries;
    clean = λ k x h d i b. v.clean k x h d i b;
  },
  λ k i b a h e. ground arith,
)
