-- ===== src/Experiment/Keys.antt =====
-- The key patterns of internal/experiment/keys.go. Random bytes and the clock are arguments.
use index_lab.Bytes.{be_decode}
use index_lab.Key.{of_word}
use index_lab.Prelude.{
  ℕ, zero, suc, ◌+◌, ◌-◌, ◌*◌, ◌/◌, ◌%◌, ◌^◌, ◌≡◌, ◌<◌, Option, none, some, List, [], ◌∷◌, length,
  refl, sym, ap, ◌∙◌, arith, ◌>>=◌,
}
use index_lab.Prelude.Int.{ℤ, pos, negsuc, ◌<ℤ◌}

-- `KeyPattern` is a string with four named values. `unknown` is any other.
pub data KeyPattern : Type 0 where
  sequential random uuid4_like uuid7_like unknown : KeyPattern

-- What call `i` of `rand.Read` puts into a buffer of so many bytes; `none` when it fails, which panics.
abbrev pub Random : Type 0
Random = ℕ → ℕ → Option (List ℕ)

-- `keys[i] = int64(i)` for the `n` indices from `i` on.
unfoldable pub sequential_keys : ℕ → ℕ → List ℤ
sequential_keys zero i = []
sequential_keys (suc n) i = of_word (i % 2 ^ 64) ∷ sequential_keys n (i + 1)

unfoldable pub random_keys : Random → ℕ → ℕ → Option (List ℤ)
random_keys read zero i = some []
random_keys read (suc n) i = do
  buf ← read i 8
  keys ← random_keys read n (i + 1)
  some (of_word (be_decode buf) ∷ keys)

unfoldable pub uuid4_like_keys : Random → ℕ → ℕ → Option (List ℤ)
uuid4_like_keys read n i = random_keys read n i

-- `(millis << 28) | lowBits`, where `millis` is `startMillis + int64(i)`. The low bits are below
-- 2 ^ 28 and those of the shifted number are 0, so that the sum is their union.
abbrev pub uuid7_like_key : ℕ → ℕ → List ℕ → ℤ
uuid7_like_key start_millis i rand_buf =
    of_word (((start_millis + i) * 2 ^ 28) % 2 ^ 64 + be_decode rand_buf % 2 ^ 28)

-- The clock is past 1970, so `startMillis` is not negative.
unfoldable pub uuid7_like_keys : ℕ → Random → ℕ → ℕ → Option (List ℤ)
uuid7_like_keys start_millis read zero i = some []
uuid7_like_keys start_millis read (suc n) i = do
  rand_buf ← read i 4
  keys ← uuid7_like_keys start_millis read n (i + 1)
  some (uuid7_like_key start_millis i rand_buf ∷ keys)

-- `GenerateKeys`. `make` panics on a negative length.
unfoldable pub generate_keys : ℕ → Random → KeyPattern → ℤ → Option (List ℤ)
generate_keys start_millis read unknown n = some []
generate_keys start_millis read pattern (negsuc n) = none
generate_keys start_millis read sequential (pos n) = some (sequential_keys n 0)
generate_keys start_millis read random (pos n) = random_keys read n 0
generate_keys start_millis read uuid4_like (pos n) = uuid4_like_keys read n 0
generate_keys start_millis read uuid7_like (pos n) = uuid7_like_keys start_millis read n 0

-- Every key is below all that follow.
abbrev pub Below : ℤ → List ℤ → Type 0
Below k [] = Unit
Below k (j ∷ keys) = (k <ℤ j) × Below k keys

abbrev pub StrictlyAscending : List ℤ → Type 0
StrictlyAscending [] = Unit
StrictlyAscending (k ∷ keys) = Below k keys × StrictlyAscending keys

-- Every call of `rand.Read` succeeds.
abbrev pub Succeeds : Random → Type 0
Succeeds read = (i size : ℕ) → (buf : List ℕ) × (read i size ≡ some buf)

-- In one block later times give greater keys, whatever the random bytes are.
uuid7_like_key-lt :
    (start i j : ℕ) (a b : List ℕ)
    → i < j
    → (start + i) / 2 ^ 35 ≡ (start + j) / 2 ^ 35
    → uuid7_like_key start i a <ℤ uuid7_like_key start j b
unfolding of_word
uuid7_like_key-lt start i j a b h same = ground arith

module _ (start : ℕ) (read : Random) (succeeds : Succeeds read) (block : ℕ) where
  -- The keys of times in one block ascend, and stand above those of earlier times in it.
  uuid7_like_keys-StrictlyAscending :
      (n m : ℕ)
      → ((j : ℕ) → j < n → (start + (m + j)) / 2 ^ 35 ≡ block)
      → (keys : List ℤ) × (uuid7_like_keys start read n m ≡ some keys)
        × (length keys ≡ n)
        × StrictlyAscending keys
        × ((i : ℕ) (buf : List ℕ)
            → i < m
            → (start + i) / 2 ^ 35 ≡ block
            → Below (uuid7_like_key start i buf) keys)
  unfolding uuid7_like_keys
  uuid7_like_keys-StrictlyAscending zero m inside = ([], refl, refl, tt, λ i buf h e. tt)
  uuid7_like_keys-StrictlyAscending (suc n) m inside =
      let (b, got) = succeeds m 4 in
      let here : (start + m) / 2 ^ 35 ≡ block =
        ap (λ t. (start + t) / 2 ^ 35) (omega arith) ∙ inside 0 (omega arith) in
      let (keys, run, size, asc, above) =
        uuid7_like_keys-StrictlyAscending n (m + 1)
          (λ j k. ap (λ t. (start + t) / 2 ^ 35) (omega arith) ∙ inside (suc j) (omega arith)) in
      (
        uuid7_like_key start m b ∷ keys,
        ground (arith, got, run),
        omega (arith, size),
        (above m b (omega arith) here, asc),
        λ i buf h e.
            (uuid7_like_key-lt start i m buf b h (e ∙ sym here), above i buf (omega arith) e),
      )

-- While `rand.Read` succeeds and the times of the first key and of the last one lie in one block of
-- 2^35 milliseconds (398 days), `GenerateKeys` of the UUID7-like pattern does not panic, and its
-- `n` keys ascend strictly, whatever the random bytes are.
pub generate_keys-StrictlyAscending :
    (start n : ℕ) (read : Random)
    → Succeeds read
    → start / 2 ^ 35 ≡ (start + (n - 1)) / 2 ^ 35
    → (keys : List ℤ) × (generate_keys start read uuid7_like (pos n) ≡ some keys)
      × (length keys ≡ n)
      × StrictlyAscending keys
unfolding generate_keys
generate_keys-StrictlyAscending start n read succeeds same =
    let (keys, run, size, asc, _) =
      uuid7_like_keys-StrictlyAscending start read succeeds (start / 2 ^ 35) n 0
        (λ j h. omega (arith, same)) in
    (keys, run, size, asc)
