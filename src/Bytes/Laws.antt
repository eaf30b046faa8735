-- ===== src/Bytes/Laws.antt =====
-- What a read sees after a write, and integers through their bytes.
use native.Mathlib.Nat.{
  pow-suc, div-div-eq-div-mul, mod-eq-sub-div-mul, div-mul-le_self, mod-eq_of_lt,
}
use index_lab.Prelude.{
  take, some, sym, take-append, length-append, ℕ, zero, suc, ◌+◌, ◌-◌, ◌*◌, ◌/◌, ◌%◌, ◌^◌, ◌≤◌, ◌<◌,
  ◌≡◌, ◌⊎◌, refl, ap, ◌∙◌, List, [], ◌∷◌, ◌++◌, length, get_or, arith,
}
use index_lab.Bytes.Defs.{be_bytes, be_decode, decode_from, read_bytes, write_bytes, uint64}

pub length-be_bytes : (w v : ℕ) → length (be_bytes w v) ≡ w
unfolding be_bytes
length-be_bytes zero v = refl
length-be_bytes (suc w) v = ap suc (length-be_bytes w v)

pub length-read_bytes : (d : ℕ → ℕ) (a n : ℕ) → length (read_bytes d a n) ≡ n
unfolding read_bytes
length-read_bytes d a zero = refl
length-read_bytes d a (suc n) = ap suc (length-read_bytes d (a + 1) n)

-- A write changes the bytes of its range and no other.
pub write_bytes_outside :
    (d : ℕ → ℕ) (a : ℕ) (bs : List ℕ) (i : ℕ)
    → (i < a) ⊎ (a + length bs ≤ i)
    → write_bytes d a bs i ≡ d i
unfolding write_bytes
write_bytes_outside d a bs i h = ground arith

pub write_bytes_inside :
    (d : ℕ → ℕ) (a : ℕ) (bs : List ℕ) (k i : ℕ)
    → i ≡ a + k
    → k < length bs
    → write_bytes d a bs i ≡ get_or bs k 0
unfolding write_bytes
write_bytes_inside d a bs k i e h =
    let back : i - a ≡ k = omega arith in ground (arith, ap (λ (t : ℕ). get_or bs t 0) back)

-- A read that agrees byte for byte is the same.
pub read_bytes_congr :
    (d e : ℕ → ℕ) (a n : ℕ)
    → ((i : ℕ) → a ≤ i → i < a + n → d i ≡ e i)
    → read_bytes d a n ≡ read_bytes e a n
unfolding read_bytes
read_bytes_congr d e a zero h = refl
read_bytes_congr d e a (suc n) h =
    let first : d a ≡ e a = h a (omega arith) (omega arith) in
    let rest = read_bytes_congr d e (a + 1) n (λ i p q. h i (omega arith) (omega arith)) in
    ground (arith, first, rest)

pub read-write_apart :
    (d : ℕ → ℕ) (a : ℕ) (bs : List ℕ) (b n : ℕ)
    → (b + n ≤ a) ⊎ (a + length bs ≤ b)
    → read_bytes (write_bytes d a bs) b n ≡ read_bytes d b n
read-write_apart d a bs b n h =
    read_bytes_congr (write_bytes d a bs) d b n
      (λ i p q. write_bytes_outside d a bs i (omega arith))

read_from :
    (d : ℕ → ℕ) (a : ℕ) (bs : List ℕ)
    → ((k : ℕ) → k < length bs → d (a + k) ≡ get_or bs k 0)
    → read_bytes d a (length bs) ≡ bs
unfolding read_bytes
read_from d a [] h = refl
read_from d a (b ∷ bs) h =
    let here : d a ≡ b = ap d (omega arith) ∙ h 0 (omega arith) in
    let rest = read_from d (a + 1) bs (λ k p. ap d (omega arith) ∙ h (suc k) (omega arith)) in
    ground (arith, here, rest)

pub read-write_self :
    (d : ℕ → ℕ) (a : ℕ) (bs : List ℕ) → read_bytes (write_bytes d a bs) a (length bs) ≡ bs
read-write_self d a bs =
    read_from (write_bytes d a bs) a bs (λ k h. write_bytes_inside d a bs k (a + k) refl h)

-- The remainder by `p * 256` is made of the next byte and the remainder by `p`.
pub mod_next_byte : (v p : ℕ) → v % (p * 256) ≡ v / p % 256 * p + v % p
mod_next_byte v p =
    let q = v / p in
    let t = v / (p * 256) in
    let split : q * p ≡ (q / 256 * 256 + q % 256) * p = ap (λ x. x * p) (omega arith) in
    let same : q / 256 * p ≡ t * p = ap (λ x. x * p) (div-div-eq-div-mul v p 256) in
    omega (
      arith,
      mod-eq-sub-div-mul v (p * 256),
      mod-eq-sub-div-mul v p,
      div-mul-le_self v p,
      div-mul-le_self v (p * 256),
      split,
      same,
    )

decode_from-be_bytes : (acc w v : ℕ) → decode_from acc (be_bytes w v) ≡ acc * 256 ^ w + v % 256 ^ w
unfolding decode_from be_bytes
decode_from-be_bytes acc zero v = omega arith
decode_from-be_bytes acc (suc w) v =
    let p = 256 ^ w in
    let step : 256 ^ suc w ≡ p * 256 = pow-suc 256 w in
    rw (step) (omega (arith, decode_from-be_bytes (acc * 256 + v / p % 256) w v, mod_next_byte v p))

-- A number of at most `w` bytes is read back as it was written.
pub be_decode-be_bytes : (w v : ℕ) → v < 256 ^ w → be_decode (be_bytes w v) ≡ v
unfolding be_decode
be_decode-be_bytes w v h = omega (arith, decode_from-be_bytes 0 w v, mod-eq_of_lt h)

-- A 64-bit number is read back from its bytes, whatever bytes follow.
pub uint64-be_bytes : (v : ℕ) (rest : List ℕ) → v < 2 ^ 64 → uint64 (be_bytes 8 v ++ rest) ≡ some v
unfolding uint64
uint64-be_bytes v rest h =
    let size : length (be_bytes 8 v) ≡ 8 = length-be_bytes 8 v in
    let first : take 8 (be_bytes 8 v ++ rest) ≡ be_bytes 8 v =
      ap (λ k. take k (be_bytes 8 v ++ rest)) (sym size) ∙ take-append (be_bytes 8 v) rest in
    ground (
      arith,
      length-append (be_bytes 8 v) rest,
      size,
      ap be_decode first ∙ be_decode-be_bytes 8 v h,
    )

-- The first bytes of a read are a shorter read.
pub take-read_bytes : (d : ℕ → ℕ) (a n m : ℕ) → n ≤ m → take n (read_bytes d a m) ≡ read_bytes d a n
unfolding read_bytes
take-read_bytes d a zero m h = refl
take-read_bytes d a (suc n) zero h = absurd (omega arith)
take-read_bytes d a (suc n) (suc m) h = ap (◌∷◌ (d a)) (take-read_bytes d (a + 1) n m (omega arith))
