-- ===== src/Tree/SplitRows.antt =====
-- Rows with different keys, cut in two at the first key of the second part.
use index_lab.Key.{IsInt64}
use index_lab.Leaf.Rows.{Row, encode_rows, AreInt64, AllGe, Ascending, encode_row}
use index_lab.Prelude.{
  ℕ, zero, suc, ◌≡◌, refl, sym, ap, Option, some, List, [], ◌∷◌, take, drop, arith,
}
use index_lab.Prelude.Int.{ℤ, ◌≤ℤ◌, ◌<ℤ◌}
use index_lab.Tree.Context.{InRange, AllIn}
use mathlib.Core.Path.{subst}

abbrev pub AllAbove : ℤ → List Row → Type 0
AllAbove key [] = Unit
AllAbove key ((k, _) ∷ rows) = (key <ℤ k) × AllAbove key rows

-- The keys ascend strictly.
abbrev pub Distinct : List Row → Type 0
Distinct [] = Unit
Distinct ((k, _) ∷ rows) = AllAbove k rows × Distinct rows

pub encode_rows-take :
    (n : ℕ) (rows : List Row) → encode_rows (take n rows) ≡ take n (encode_rows rows)
encode_rows-take zero rows = refl
encode_rows-take (suc n) [] = refl
encode_rows-take (suc n) (r ∷ rows) = ap (λ es. encode_row r ∷ es) (encode_rows-take n rows)

pub encode_rows-drop :
    (n : ℕ) (rows : List Row) → encode_rows (drop n rows) ≡ drop n (encode_rows rows)
encode_rows-drop zero rows = refl
encode_rows-drop (suc n) [] = refl
encode_rows-drop (suc n) (r ∷ rows) = encode_rows-drop n rows

pub take-AreInt64 : (n : ℕ) (rows : List Row) → AreInt64 rows → AreInt64 (take n rows)
take-AreInt64 zero rows h = tt
take-AreInt64 (suc n) [] h = tt
take-AreInt64 (suc n) ((k, v) ∷ rows) h = (h.0, h.1, take-AreInt64 n rows h.2)

pub drop-AreInt64 : (n : ℕ) (rows : List Row) → AreInt64 rows → AreInt64 (drop n rows)
drop-AreInt64 zero rows h = h
drop-AreInt64 (suc n) [] h = tt
drop-AreInt64 (suc n) ((k, v) ∷ rows) h = drop-AreInt64 n rows h.2

take-AllGe : (key : ℤ) (n : ℕ) (rows : List Row) → AllGe key rows → AllGe key (take n rows)
take-AllGe key zero rows h = tt
take-AllGe key (suc n) [] h = tt
take-AllGe key (suc n) ((k, v) ∷ rows) h = (h.0, take-AllGe key n rows h.1)

pub take-Ascending : (n : ℕ) (rows : List Row) → Ascending rows → Ascending (take n rows)
take-Ascending zero rows h = tt
take-Ascending (suc n) [] h = tt
take-Ascending (suc n) ((k, v) ∷ rows) h = (take-AllGe k n rows h.0, take-Ascending n rows h.1)

pub drop-Ascending : (n : ℕ) (rows : List Row) → Ascending rows → Ascending (drop n rows)
drop-Ascending zero rows h = h
drop-Ascending (suc n) [] h = tt
drop-Ascending (suc n) ((k, v) ∷ rows) h = drop-Ascending n rows h.1

AllAbove-AllIn :
    (key k : ℤ) (lo hi : Option ℤ) (rows : List Row)
    → k ≤ℤ key
    → AllAbove key rows
    → AllIn lo hi rows
    → AllIn (some k) hi rows
AllAbove-AllIn key k lo hi [] le h r = tt
AllAbove-AllIn key k lo hi ((j, v) ∷ rows) le h r =
    ((omega (arith, h.0), r.0.1), AllAbove-AllIn key k lo hi rows le h.1 r.1)

module _ (k v : ℤ) (rest : List Row) where
  AllAbove-drop :
      (key : ℤ) (n : ℕ) (rows : List Row)
      → AllAbove key rows
      → drop n rows ≡ (k, v) ∷ rest
      → key <ℤ k
  AllAbove-drop key zero rows h e = (subst (AllAbove key) e h).0
  AllAbove-drop key (suc n) [] h e = ground (arith, e)
  AllAbove-drop key (suc n) (r ∷ rows) h e = AllAbove-drop key n rows h.1 e

  -- Rows in a range, cut before the key `k`.
  pub cut-AllIn :
      (lo hi : Option ℤ) (n : ℕ) (rows : List Row)
      → Distinct rows
      → AllIn lo hi rows
      → AreInt64 rows
      → drop n rows ≡ (k, v) ∷ rest
      → AllIn lo (some k) (take n rows)
        × AllIn (some k) hi (drop n rows)
        × InRange lo hi k
        × IsInt64 k
  cut-AllIn lo hi zero rows d r i e =
      let (d', r', i') = subst (λ m. Distinct m × AllIn lo hi m × AreInt64 m) e (d, r, i) in
      (
        tt,
        subst (AllIn (some k) hi) (sym e)
            ((omega arith, r'.0.1), AllAbove-AllIn k k lo hi rest (omega arith) d'.0 r'.1),
        r'.0,
        i'.0,
      )
  cut-AllIn lo hi (suc n) [] d r i e = absurd (ground (arith, e))
  cut-AllIn lo hi (suc n) ((j, w) ∷ rows) d r i e =
      let (left, right, range, int) = cut-AllIn lo hi n rows d.1 r.1 i.2 e in
      (((r.0.0, AllAbove-drop j n rows d.0 e), left), right, range, int)
