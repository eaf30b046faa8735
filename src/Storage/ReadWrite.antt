-- ===== src/Storage/ReadWrite.antt =====
-- What the pages of a file are, and how reads, writes and syncs act on them.
use index_lab.Errors.{ok, err, io}
use index_lab.Page.{Page, PageId, page_size}
use index_lab.Storage.{PageManager, page_offset, read_page, write_page}
use index_lab.Prelude.{
  ℕ, ◌+◌, ◌*◌, ◌^◌, ◌≤◌, ◌<◌, ◌≡◌, ◌≢◌, refl, sym, ap, ◌∙◌, Option, none, some, [], arith, leb, ltb,
  if◌then◌else◌,
}

-- A page whose byte offset an `int64` holds.
abbrev pub IsAddressable : PageId → Type 0
IsAddressable id = id < 2 ^ 51

-- Byte `i` of page `id` in the file, unless the file ends before the page does.
unfoldable pub disk_byte : PageManager → PageId → ℕ → Option ℕ
disk_byte pm id i =
    if leb (id * page_size + page_size) pm.file.size
    then some (pm.file.content (id * page_size + i))
    else none

pub page_offset_lem : (id : PageId) → IsAddressable id → page_offset id ≡ id * page_size
page_offset_lem id h = omega arith

-- Reading changes no page, whatever the calls answer.
pub disk_byte-read_page :
    (pm : PageManager) (id other : PageId) (i : ℕ)
    → disk_byte (read_page pm id).0 other i ≡ disk_byte pm other i
unfolding disk_byte read_page
disk_byte-read_page pm id other i = ground arith

-- A page that was read has its own ID and the bytes of the file.
pub read_page-disk_byte :
    (pm : PageManager) (id : PageId) {p : Page} (i : ℕ)
    → IsAddressable id
    → (read_page pm id).1 ≡ ok p
    → i < page_size
    → (p.id ≡ id) × (disk_byte pm id i ≡ some (p.bytes i))
unfolding disk_byte read_page
read_page-disk_byte pm id i h e b = ground (arith, page_offset_lem id h)

-- `WritePage` changes no byte of another page of the file, whatever the calls answer, where an
-- int64 holds the byte offsets of both.
pub disk_byte-write_page_ne :
    (pm : PageManager) (p : Page) (other : PageId) (i b : ℕ)
    → IsAddressable p.id
    → IsAddressable other
    → other ≢ p.id
    → i < page_size
    → disk_byte pm other i ≡ some b
    → disk_byte (write_page pm p).0 other i ≡ some b
unfolding disk_byte write_page
disk_byte-write_page_ne pm p other i b hp ho ne h e = ground (arith, page_offset_lem p.id hp)

-- After a write that succeeds the file holds the page.
pub disk_byte-write_page_self :
    (pm : PageManager) (p : Page) (i : ℕ)
    → IsAddressable p.id
    → (write_page pm p).1 ≡ ok tt
    → i < page_size
    → disk_byte (write_page pm p).0 p.id i ≡ some (p.bytes i)
unfolding disk_byte write_page
disk_byte-write_page_self pm p i h e b = ground (arith, page_offset_lem p.id h)

-- `ReadPage` of a page that the file does not hold whole answers an error, whatever the calls
-- answer, where an int64 holds its byte offset.
pub read_page-past_end :
    (pm : PageManager) (id : PageId)
    → IsAddressable id
    → pm.file.size < id * page_size + page_size
    → (read_page pm id).1 ≡ err io
unfolding read_page
read_page-past_end pm id h past = ground (arith, page_offset_lem id h)

-- The bytes that a read at an offset returns.
abbrev page_from : PageManager → ℕ → ℕ → ℕ
page_from pm offset i = if ltb i page_size then pm.file.content (offset + i) else 0

abbrev disk_page : PageManager → PageId → ℕ → ℕ
disk_page pm id = page_from pm (id * page_size)

pub write_page_calm :
    (pm : PageManager) (p : Page)
    → IsAddressable p.id
    → pm.file.outcomes ≡ []
    → ((write_page pm p).1 ≡ ok tt)
      × ((write_page pm p).0.file.outcomes ≡ [])
      × (p.id * page_size + page_size ≤ (write_page pm p).0.file.size)
unfolding write_page
write_page_calm pm p h calm =
    let offset = page_offset_lem p.id h in
    (ground (arith, offset), ground (arith, offset), ground (arith, offset))

read_page_calm :
    (pm : PageManager) (id : PageId)
    → IsAddressable id
    → pm.file.outcomes ≡ []
    → id * page_size + page_size ≤ pm.file.size
    → (read_page pm id).1 ≡ ok (record { id = id; bytes = disk_page pm id })
unfolding read_page
read_page_calm pm id h calm fits =
    read ∙ ap (λ o. ok (record { id = id; bytes = page_from pm o })) offset
  where
    offset : page_offset id ≡ id * page_size
    offset = page_offset_lem id h

    read : (read_page pm id).1 ≡ ok (record { id = id; bytes = page_from pm (page_offset id) })
    read = ground (arith, offset)

-- While no call fails, a page whose byte offset an int64 holds is written without an error, and
-- read back with the same ID and the same bytes.
pub read_page-write_page :
    (pm : PageManager) (p : Page)
    → IsAddressable p.id
    → pm.file.outcomes ≡ []
    → ((write_page pm p).1 ≡ ok tt)
      × (q : Page) × ((read_page (write_page pm p).0 p.id).1 ≡ ok q)
      × (q.id ≡ p.id)
      × ((i : ℕ) → i < page_size → q.bytes i ≡ p.bytes i)
read_page-write_page pm p h calm =
    let pm' = (write_page pm p).0 in
    let (wrote, calm', fits) = write_page_calm pm p h calm in
    let run = read_page_calm pm' p.id h calm' fits in
    (
      wrote,
      record { id = p.id; bytes = disk_page pm' p.id },
      run,
      refl,
      λ i b.
          let e =
            sym (read_page-disk_byte pm' p.id i h run b).1
            ∙ disk_byte-write_page_self pm p i h wrote b in
          cc e,
    )
