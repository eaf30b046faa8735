-- ===== src/Bytes/Defs.antt =====
-- A byte array is the function from an index to its byte. The length of the array is a constant of
-- its user, who tests every index against it.
use index_lab.Prelude.{
  take, Option, none, some, ℕ, zero, suc, ◌+◌, ◌-◌, ◌*◌, ◌/◌, ◌%◌, ◌^◌, List, [], ◌∷◌, ◌&&◌, length,
  get_or, leb, ltb, if◌then◌else◌,
}

-- `binary.BigEndian.PutUint16` and `PutUint64`: the `w` low bytes of `v`, the highest first.
unfoldable pub be_bytes : ℕ → ℕ → List ℕ
be_bytes zero v = []
be_bytes (suc w) v = v / 256 ^ w % 256 ∷ be_bytes w v

unfoldable pub decode_from : ℕ → List ℕ → ℕ
decode_from acc [] = acc
decode_from acc (b ∷ bs) = decode_from (acc * 256 + b) bs

-- `binary.BigEndian.Uint16` and `Uint64` of all the bytes of a slice.
unfoldable pub be_decode : List ℕ → ℕ
unfolding decode_from
be_decode bs = decode_from 0 bs

-- The `n` bytes from index `a` on.
unfoldable pub read_bytes : (ℕ → ℕ) → ℕ → ℕ → List ℕ
read_bytes d a zero = []
read_bytes d a (suc n) = d a ∷ read_bytes d (a + 1) n

-- The array with `bs` copied over the bytes from index `a` on.
unfoldable pub write_bytes : (ℕ → ℕ) → ℕ → List ℕ → ℕ → ℕ
write_bytes d a bs i = if leb a i && ltb i (a + length bs) then get_or bs (i - a) 0 else d i

-- `binary.BigEndian.Uint64` of a slice: its first 8 bytes, and a panic if it has fewer.
unfoldable pub uint64 : List ℕ → Option ℕ
uint64 bs = if leb 8 (length bs) then some (be_decode (take 8 bs)) else none
