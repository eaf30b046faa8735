-- ===== src/Page/Slots.antt =====
-- The slot array of a page: what the slot operations read and write while they stay in bounds.
use index_lab.Bytes.{
  be_bytes, be_decode, read_bytes, write_bytes, length-be_bytes, write_bytes_outside,
  read-write_apart, read-write_self, be_decode-be_bytes, read_bytes_congr,
}
use index_lab.Page.{word16, Page, Slot, get_slot, set_slot, slot_start, slice, copy_to, page_size}
use index_lab.Prelude.{
  List, ℕ, ◌+◌, ◌-◌, ◌*◌, ◌^◌, ◌≤◌, ◌<◌, ◌≡◌, ◌⊎◌, inl, sym, ap, ◌∙◌, some, take, length, arith,
  take_whole,
}

-- The integer of `w` bytes at index `a`.
abbrev pub int_at : (ℕ → ℕ) → ℕ → ℕ → ℕ
int_at d a w = be_decode (read_bytes d a w)

abbrev pub put_int : (ℕ → ℕ) → ℕ → ℕ → ℕ → ℕ → ℕ
put_int d a w v = write_bytes d a (be_bytes w v)

pub int_at-put_int_self : (d : ℕ → ℕ) (a w v : ℕ) → v < 256 ^ w → int_at (put_int d a w v) a w ≡ v
int_at-put_int_self d a w v h =
    let same : read_bytes (put_int d a w v) a w ≡ be_bytes w v =
      ap (read_bytes (put_int d a w v) a) (sym (length-be_bytes w v))
      ∙ read-write_self d a (be_bytes w v) in
    ap be_decode same ∙ be_decode-be_bytes w v h

pub int_at-put_int_apart :
    (d : ℕ → ℕ) (a w v b n : ℕ)
    → (b + n ≤ a) ⊎ (a + w ≤ b)
    → int_at (put_int d a w v) b n ≡ int_at d b n
int_at-put_int_apart d a w v b n h =
    ap be_decode (read-write_apart d a (be_bytes w v) b n (omega (arith, length-be_bytes w v)))

pub put_int_outside : (d : ℕ → ℕ) (a w v i : ℕ) → (i < a) ⊎ (a + w ≤ i) → put_int d a w v i ≡ d i
put_int_outside d a w v i h =
    write_bytes_outside d a (be_bytes w v) i (omega (arith, length-be_bytes w v))

-- Slot `i` as its four bytes say, and the bytes with slot `i` written.
abbrev pub slot_at : (ℕ → ℕ) → ℕ → Slot
slot_at d i = record { offset = int_at d (21 + i * 4) 2; length = int_at d (23 + i * 4) 2 }

abbrev pub put_slot : (ℕ → ℕ) → ℕ → Slot → ℕ → ℕ
put_slot d i s = put_int (put_int d (21 + i * 4) 2 s.offset) (23 + i * 4) 2 s.length

-- The index of a slot that lies inside the page.
abbrev pub Fits : ℕ → Type 0
Fits i = 25 + i * 4 ≤ page_size

-- A slice within the page is read, whatever expressions its bounds are.
pub slice_lem :
    (p : Page) (lo hi a n : ℕ)
    → lo ≡ a
    → hi ≡ a + n
    → a + n ≤ page_size
    → slice p lo hi ≡ some (read_bytes p.bytes a n)
unfolding slice
slice_lem p lo hi a n e f h =
    rw (e, f)
      (let width : a + n - a ≡ n = omega arith in ground (arith, ap (read_bytes p.bytes a) width))

-- A copy within the page that fills its range.
pub copy_to_lem :
    (p : Page) (lo hi a : ℕ) (src : List ℕ)
    → lo ≡ a
    → hi ≡ a + length src
    → a + length src ≤ page_size
    → copy_to p lo hi src ≡ some (record p { bytes = write_bytes p.bytes a src })
unfolding copy_to
copy_to_lem p lo hi a src e f h =
    rw (e, f)
      (let whole : take (a + length src - a) src ≡ src =
          take_whole src (a + length src - a) (omega arith) in
        ground (arith, ap (write_bytes p.bytes a) whole))

slot_start_lem : (i : ℕ) → Fits i → slot_start i ≡ 21 + i * 4
unfolding slot_start
slot_start_lem i h = omega arith

pub get_slot_lem : (p : Page) (i : ℕ) → Fits i → get_slot p i ≡ some (slot_at p.bytes i)
unfolding get_slot
get_slot_lem p i h =
    let a = slot_start i in
    let b = word16 (a + 2) in
    let c = word16 (a + 4) in
    let start = slot_start_lem i h in
    rw (
      slice_lem p a b (21 + i * 4) 2 start (omega (arith, start)) (omega arith),
      slice_lem p b c (23 + i * 4) 2 (omega (arith, start)) (omega (arith, start)) (omega arith),
    )

pub set_slot_lem :
    (p : Page) (i : ℕ) (s : Slot)
    → Fits i
    → set_slot p i s ≡ some (record p { bytes = put_slot p.bytes i s })
unfolding set_slot
set_slot_lem p i s h =
    let a = slot_start i in
    let b = word16 (a + 2) in
    let c = word16 (a + 4) in
    let start = slot_start_lem i h in
    let q : Page = record p { bytes = put_int p.bytes (21 + i * 4) 2 s.offset } in
    rw (
      copy_to_lem p a b (21 + i * 4) (be_bytes 2 s.offset) start
          (omega (arith, start, length-be_bytes 2 s.offset))
          (omega (arith, length-be_bytes 2 s.offset)),
      copy_to_lem q b c (23 + i * 4) (be_bytes 2 s.length) (omega (arith, start))
          (omega (arith, start, length-be_bytes 2 s.length))
          (omega (arith, length-be_bytes 2 s.length)),
    )

pub slot_at-put_slot_self :
    (d : ℕ → ℕ) (i : ℕ) (s : Slot)
    → s.offset < 65536
    → s.length < 65536
    → slot_at (put_slot d i s) i ≡ s
slot_at-put_slot_self d i s h k = ground (
  arith,
  int_at-put_int_apart (put_int d (21 + i * 4) 2 s.offset) (23 + i * 4) 2 s.length (21 + i * 4) 2
      (inl (omega arith)),
  int_at-put_int_self d (21 + i * 4) 2 s.offset h,
  int_at-put_int_self (put_int d (21 + i * 4) 2 s.offset) (23 + i * 4) 2 s.length k,
)

pub put_slot_outside :
    (d : ℕ → ℕ) (i : ℕ) (s : Slot) (j : ℕ)
    → (j < 21 + i * 4) ⊎ (25 + i * 4 ≤ j)
    → put_slot d i s j ≡ d j
put_slot_outside d i s j h =
    put_int_outside (put_int d (21 + i * 4) 2 s.offset) (23 + i * 4) 2 s.length j (omega arith)
    ∙ put_int_outside d (21 + i * 4) 2 s.offset j (omega arith)

pub slot_at_congr :
    (d e : ℕ → ℕ) (i : ℕ)
    → ((j : ℕ) → 21 + i * 4 ≤ j → j < 25 + i * 4 → d j ≡ e j)
    → slot_at d i ≡ slot_at e i
slot_at_congr d e i h = ground (
  arith,
  read_bytes_congr d e (21 + i * 4) 2 (λ j p q. h j (omega arith) (omega arith)),
  read_bytes_congr d e (23 + i * 4) 2 (λ j p q. h j (omega arith) (omega arith)),
)
