-- ===== src/Search.antt =====
-- `sort.Search` of Go's standard library, which node.go calls for every lookup in a page.
use native.Mathlib.Decide.{dec_lt}
use index_lab.Prelude.{
  ℕ, zero, suc, ◌+◌, ◌-◌, ◌/◌, ◌≤◌, ◌<◌, ◌≡◌, refl, inl, inr, Bool, true, false, Option, some,
  arith, ltb, ◌>>=◌, Bool-cases,
}

-- The loop `for i < j`. Each round makes `j - i` smaller, so `j - i` rounds of fuel end it by its
-- test. The predicate may panic.
unfoldable pub search_loop : ℕ → (ℕ → Option Bool) → ℕ → ℕ → Option ℕ
search_loop zero f i j = some i
search_loop (suc fuel) f i j = elim (ltb i j) [
  | false ↦ some i
  | true ↦
      let h = (i + j) / 2 in
      f h >>= λ found. elim found [
        | false ↦ search_loop fuel f (h + 1) j
        | true ↦ search_loop fuel f i h
      ]
]

unfoldable pub search : ℕ → (ℕ → Option Bool) → Option ℕ
search n f = search_loop n f 0 n

-- `r` splits the indices below `n` into those where `test` fails and those where it holds.
pub record IsSplit (test : ℕ → Bool) (n r : ℕ) : Type 0 where
  pub bound : r ≤ n
  pub below : (i : ℕ) → i < r → test i ≡ false
  pub above : (i : ℕ) → r ≤ i → i < n → test i ≡ true

module _ (f : ℕ → Option Bool) (test : ℕ → Bool) (n : ℕ)
    (total : (i : ℕ) → i < n → f i ≡ some (test i))
    (mono : (i k : ℕ) → i ≤ k → k < n → test i ≡ true → test k ≡ true) where
  mono_false : (i k : ℕ) → i ≤ k → k < n → test k ≡ false → test i ≡ false
  mono_false i k h m e = ground (arith, mono i k h m)

  search_loop-IsSplit :
      (fuel i j : ℕ)
      → j - i ≤ fuel
      → i ≤ j
      → j ≤ n
      → ((k : ℕ) → k < i → test k ≡ false)
      → ((k : ℕ) → j ≤ k → k < n → test k ≡ true)
      → (r : ℕ) × (search_loop fuel f i j ≡ some r) × IsSplit test n r
  unfolding search_loop
  search_loop-IsSplit zero i j m le top lo hi =
      (i, refl, record { bound = omega arith; below = lo; above = λ k a b. hi k (omega arith) b })
  search_loop-IsSplit (suc fuel) i j m le top lo hi = elim (dec_lt i j) [
    | no done ↦ (
      i,
      ground arith,
      record { bound = omega arith; below = lo; above = λ k a b. hi k (omega arith) b },
    )
    | yes more ↦
        let h = (i + j) / 2 in
        elim (Bool-cases (test h)) [
          | inl t ↦
              let (r, run, split) =
                search_loop-IsSplit fuel i h (omega arith) (omega arith) (omega arith) lo
                  (λ k a b. mono h k a b t) in
              (r, ground (arith, total h (omega arith), run), split)
          | inr e ↦
              let (r, run, split) =
                search_loop-IsSplit fuel (h + 1) j (omega arith) (omega arith) top
                  (λ k a. mono_false k h (omega arith) (omega arith) e) hi in
              (r, ground (arith, total h (omega arith), run), split)
        ]
  ]

  -- On a monotone test that never panics below `n`, the binary search ends without a panic and
  -- returns the index that splits the indices below `n` into those where the test fails and those
  -- where it holds.
  pub search-IsSplit : (r : ℕ) × (search n f ≡ some r) × IsSplit test n r
  unfolding search
  search-IsSplit =
      search_loop-IsSplit n 0 n (omega arith) (omega arith) (omega arith)
        (λ k h. absurd (omega arith)) (λ k a b. absurd (omega arith))
