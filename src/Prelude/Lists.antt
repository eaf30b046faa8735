-- ===== src/Prelude/Lists.antt =====
-- Lists measured and indexed by native numbers, under the library's names.
use Prim.Native.Nat.{ℕ, zero, suc, ◌+◌, ◌-◌, ◌≤◌, ◌<◌, min}
use mathlib.Core.List.{List, [], ◌∷◌, ◌++◌}
use mathlib.Core.Option.{Option, none, some}
use native.Mathlib.Omega.{arith}
use mathlib.Core.Path.{◌≡◌, refl, ap}

module _ {ℓ} {A : Type ℓ} where
  abbrev pub get_elem? : List A → ℕ → Option A
  get_elem? [] i = none
  get_elem? (x ∷ xs) zero = some x
  get_elem? (x ∷ xs) (suc i) = get_elem? xs i

  abbrev pub get_or : List A → ℕ → A → A
  get_or [] i d = d
  get_or (x ∷ xs) zero d = x
  get_or (x ∷ xs) (suc i) d = get_or xs i d

  abbrev pub take : ℕ → List A → List A
  take zero list = []
  take (suc k) [] = []
  take (suc k) (first ∷ rest) = first ∷ take k rest

  abbrev pub drop : ℕ → List A → List A
  drop zero xs = xs
  drop (suc n) [] = []
  drop (suc n) (x ∷ xs) = drop n xs

  abbrev pub length : List A → ℕ
  length [] = 0
  length (first ∷ rest) = suc (length rest)

  -- The list with `v` at index `i`, and what stood there moved on by one.
  abbrev pub insert_at : ℕ → A → List A → List A
  insert_at zero v xs = v ∷ xs
  insert_at (suc i) v [] = v ∷ []
  insert_at (suc i) v (x ∷ xs) = x ∷ insert_at i v xs

  -- The list without its element at index `i`.
  abbrev pub remove_at : ℕ → List A → List A
  remove_at i [] = []
  remove_at zero (x ∷ xs) = xs
  remove_at (suc i) (x ∷ xs) = x ∷ remove_at i xs

module _ {ℓ} {A : Type ℓ} where
  pub length-append : (xs ys : List A) → length (xs ++ ys) ≡ length xs + length ys
  length-append [] ys = omega arith
  length-append (x ∷ xs) ys = omega (arith, length-append xs ys)

  pub length-insert_at : (i : ℕ) (v : A) (xs : List A) → length (insert_at i v xs) ≡ suc (length xs)
  length-insert_at zero v xs = refl
  length-insert_at (suc i) v [] = refl
  length-insert_at (suc i) v (x ∷ xs) = ap suc (length-insert_at i v xs)

  pub length-take : (n : ℕ) (xs : List A) → length (take n xs) ≡ min n (length xs)
  length-take zero xs = omega arith
  length-take (suc n) [] = omega arith
  length-take (suc n) (x ∷ xs) = omega (arith, length-take n xs)

  pub length-drop : (n : ℕ) (xs : List A) → length (drop n xs) ≡ length xs - n
  length-drop zero xs = omega arith
  length-drop (suc n) [] = omega arith
  length-drop (suc n) (x ∷ xs) = omega (arith, length-drop n xs)

  pub take-append-drop : (n : ℕ) (xs : List A) → take n xs ++ drop n xs ≡ xs
  take-append-drop zero xs = refl
  take-append-drop (suc n) [] = refl
  take-append-drop (suc n) (x ∷ xs) = rw (take-append-drop n xs)

  pub take-append : (xs ys : List A) → take (length xs) (xs ++ ys) ≡ xs
  take-append [] ys = refl
  take-append (x ∷ xs) ys = ap (◌∷◌ x) (take-append xs ys)

  pub drop-append : (xs ys : List A) → drop (length xs) (xs ++ ys) ≡ ys
  drop-append [] ys = refl
  drop-append (x ∷ xs) ys = drop-append xs ys

  -- Taking at least the whole list.
  pub take_whole : (xs : List A) (n : ℕ) → length xs ≤ n → take n xs ≡ xs
  take_whole [] zero le = refl
  take_whole [] (suc n) le = refl
  take_whole (x ∷ xs) zero le = absurd (omega arith)
  take_whole (x ∷ xs) (suc n) le = ap (◌∷◌ x) (take_whole xs n (omega arith))

  pub insert_at-length : (v : A) (xs : List A) → insert_at (length xs) v xs ≡ xs ++ (v ∷ [])
  insert_at-length v [] = refl
  insert_at-length v (x ∷ xs) = ap (◌∷◌ x) (insert_at-length v xs)

  -- Reading a list after an insertion: before the place, at it, and behind it.
  pub get_or-insert_at_lt :
      (i j : ℕ) (v d : A) (xs : List A)
      → j < i
      → i ≤ length xs
      → get_or (insert_at i v xs) j d ≡ get_or xs j d
  get_or-insert_at_lt zero j v d xs h k = absurd (omega arith)
  get_or-insert_at_lt (suc i) j v d [] h k = absurd (omega arith)
  get_or-insert_at_lt (suc i) zero v d (x ∷ xs) h k = refl
  get_or-insert_at_lt (suc i) (suc j) v d (x ∷ xs) h k =
      get_or-insert_at_lt i j v d xs (omega arith) (omega arith)

  pub get_or-insert_at_self :
      (i : ℕ) (v d : A) (xs : List A) → i ≤ length xs → get_or (insert_at i v xs) i d ≡ v
  get_or-insert_at_self zero v d xs k = refl
  get_or-insert_at_self (suc i) v d [] k = absurd (omega arith)
  get_or-insert_at_self (suc i) v d (x ∷ xs) k = get_or-insert_at_self i v d xs (omega arith)

  pub get_or-insert_at_gt :
      (i j : ℕ) (v d : A) (xs : List A)
      → i ≤ j
      → get_or (insert_at i v xs) (suc j) d ≡ get_or xs j d
  get_or-insert_at_gt zero j v d xs h = refl
  get_or-insert_at_gt (suc i) zero v d xs h = absurd (omega arith)
  get_or-insert_at_gt (suc i) (suc j) v d [] h = refl
  get_or-insert_at_gt (suc i) (suc j) v d (x ∷ xs) h = get_or-insert_at_gt i j v d xs (omega arith)
