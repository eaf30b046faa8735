-- ===== src/Bits.antt =====
-- Exclusive or with one bit, at every width. key.go flips the sign bit of a 64-bit word by it.
use Prim.Native.Nat.{bit_xor, bit_xor-bitwise, digits, differ}
use native.Mathlib.Nat.{pow-suc}
use index_lab.Prelude.{ℕ, zero, suc, ◌+◌, ◌*◌, ◌/◌, ◌%◌, ◌^◌, ◌≤◌, ◌<◌, ◌≡◌, refl, ap, ◌∙◌, arith}

abbrev xor_digits : ℕ → ℕ → ℕ → ℕ
xor_digits n a b = digits (λ b. b) differ n a b

xor_digits_fuel : (a b n m : ℕ) → a ≤ n → a ≤ m → xor_digits n a b ≡ xor_digits m a b
xor_digits_fuel zero b zero zero p q = refl
xor_digits_fuel zero b zero (suc m) p q = refl
xor_digits_fuel zero b (suc n) zero p q = refl
xor_digits_fuel zero b (suc n) (suc m) p q = refl
xor_digits_fuel (suc a) b zero m p q = absurd (omega arith)
xor_digits_fuel (suc a) b (suc n) zero p q = absurd (omega arith)
xor_digits_fuel (suc a) b (suc n) (suc m) p q =
    let half = xor_digits_fuel (suc a / 2) (b / 2) n m (omega arith) (omega arith) in
    omega (arith, half)

zero-bit_xor : (b : ℕ) → bit_xor 0 b ≡ b
zero-bit_xor b = bit_xor-bitwise 0 b

-- One digit at a time.
bit_xor_step : (a b : ℕ) → bit_xor a b ≡ bit_xor (a / 2) (b / 2) * 2 + differ (a % 2) (b % 2)
bit_xor_step zero b = omega (arith, zero-bit_xor b, zero-bit_xor (b / 2))
bit_xor_step (suc a) b = omega (
  arith,
  bit_xor-bitwise (suc a) b,
  bit_xor-bitwise (suc a / 2) (b / 2),
  xor_digits_fuel (suc a / 2) (b / 2) a (suc a / 2) (omega arith) (omega arith),
)

differ-zero : (a : ℕ) → differ a 0 ≡ a
differ-zero zero = refl
differ-zero (suc a) = refl

-- Above the lowest digit, a power of two leaves that digit alone.
bit_xor-pow_step : (k x : ℕ) → bit_xor x (2 ^ suc k) ≡ bit_xor (x / 2) (2 ^ k) * 2 + x % 2
bit_xor-pow_step k x =
    let double : 2 ^ suc k ≡ 2 ^ k * 2 = pow-suc 2 k in
    let half : 2 ^ suc k / 2 ≡ 2 ^ k = omega (arith, double) in
    let even : 2 ^ suc k % 2 ≡ 0 = omega (arith, double) in
    omega (
      arith,
      bit_xor_step x (2 ^ suc k),
      ap (bit_xor (x / 2)) half,
      ap (differ (x % 2)) even ∙ differ-zero (x % 2),
    )

-- Flipping a bit that is not set adds it.
pub bit_xor-pow_set : (k x : ℕ) → x < 2 ^ k → bit_xor x (2 ^ k) ≡ x + 2 ^ k
bit_xor-pow_set zero zero h = refl
bit_xor-pow_set zero (suc x) h = absurd (omega arith)
bit_xor-pow_set (suc k) x h =
    let double : 2 ^ suc k ≡ 2 ^ k * 2 = pow-suc 2 k in
    omega (arith, bit_xor-pow_step k x, bit_xor-pow_set k (x / 2) (omega (arith, double)), double)

-- Flipping a bit that is set takes it away.
pub bit_xor-pow_clear : (k x : ℕ) → x < 2 ^ k → bit_xor (x + 2 ^ k) (2 ^ k) ≡ x
bit_xor-pow_clear zero zero h = refl
bit_xor-pow_clear zero (suc x) h = absurd (omega arith)
bit_xor-pow_clear (suc k) x h =
    let double : 2 ^ suc k ≡ 2 ^ k * 2 = pow-suc 2 k in
    let half : (x + 2 ^ suc k) / 2 ≡ x / 2 + 2 ^ k = omega (arith, double) in
    omega (
      arith,
      bit_xor-pow_step k (x + 2 ^ suc k),
      ap (λ t. bit_xor t (2 ^ k)) half,
      bit_xor-pow_clear k (x / 2) (omega (arith, double)),
      double,
    )
