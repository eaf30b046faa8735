-- ===== src/Tree/Context.antt =====
-- Rows around those of a leaf: a key that belongs to the leaf is looked up, inserted and removed in
-- the leaf alone.
use index_lab.Leaf.Rows.{Row, lookup_row, insert_row, remove_row}
use index_lab.Prelude.{◌≡◌, refl, ap, ◌∙◌, Option, none, some, List, [], ◌∷◌, ◌++◌, arith}
use index_lab.Prelude.Int.{ℤ, ◌≤ℤ◌, ◌<ℤ◌}

-- Bounds of a range of keys, the lower one within it; `none` is no bound.
abbrev pub AtLeast : Option ℤ → ℤ → Type 0
AtLeast none k = Unit
AtLeast (some lo) k = lo ≤ℤ k

abbrev pub Below : Option ℤ → ℤ → Type 0
Below none k = Unit
Below (some hi) k = k <ℤ hi

abbrev pub InRange : Option ℤ → Option ℤ → ℤ → Type 0
InRange lo hi k = AtLeast lo k × Below hi k

abbrev pub AllIn : Option ℤ → Option ℤ → List Row → Type 0
AllIn lo hi [] = Unit
AllIn lo hi ((k, _) ∷ rows) = InRange lo hi k × AllIn lo hi rows

pub AtLeast-le : (lo : Option ℤ) (k j : ℤ) → AtLeast lo k → k ≤ℤ j → AtLeast lo j
AtLeast-le none k j h le = tt
AtLeast-le (some lo) k j h le = omega (arith, h, le)

pub Below-lt : (hi : Option ℤ) (k j : ℤ) → Below hi k → j <ℤ k → Below hi j
Below-lt none k j h lt = tt
Below-lt (some hi) k j h lt = omega (arith, h, lt)

-- The rows left of a separator and those from it on make up the whole range.
pub AllIn-append :
    (lo hi : Option ℤ) (k : ℤ) (xs ys : List Row)
    → InRange lo hi k
    → AllIn lo (some k) xs
    → AllIn (some k) hi ys
    → AllIn lo hi (xs ++ ys)
AllIn-append lo hi k [] [] h l r = tt
AllIn-append lo hi k [] ((j, v) ∷ ys) h l r =
    ((AtLeast-le lo k j h.0 r.0.0, r.0.1), AllIn-append lo hi k [] ys h tt r.1)
AllIn-append lo hi k ((j, v) ∷ xs) ys h l r =
    ((l.0.0, Below-lt hi k j h.1 l.0.1), AllIn-append lo hi k xs ys h l.1 r)

-- `plug` puts rows around those of a leaf, and they do not matter for the key.
pub record IsContext (key : ℤ) (plug : List Row → List Row) : Type 0 where
  pub lookup : (m : List Row) → lookup_row key (plug m) ≡ lookup_row key m
  pub insert : (v : ℤ) (m : List Row) → insert_row key v (plug m) ≡ plug (insert_row key v m)
  pub remove : (m : List Row) → remove_row key (plug m) ≡ plug (remove_row key m)

pub IsContext-refl : (key : ℤ) → IsContext key (λ m. m)
IsContext-refl key = record { lookup = λ m. refl; insert = λ v m. refl; remove = λ m. refl }

pub IsContext-trans :
    (key : ℤ) (f g : List Row → List Row)
    → IsContext key f
    → IsContext key g
    → IsContext key (λ m. f (g m))
IsContext-trans key f g a b = record {
  lookup = λ m. a.lookup (g m) ∙ b.lookup m;
  insert = λ v m. a.insert v (g m) ∙ ap f (b.insert v m);
  remove = λ m. a.remove (g m) ∙ ap f (b.remove m);
}

-- Rows below a separator that is not above the key, and then other rows.
module _ (key k : ℤ) (lo : Option ℤ) (le : k ≤ℤ key) where
  lookup_after :
      (xs m : List Row) → AllIn lo (some k) xs → lookup_row key (xs ++ m) ≡ lookup_row key m
  unfolding lookup_row
  lookup_after [] m h = refl
  lookup_after ((j, v) ∷ xs) m h = ground (arith, lookup_after xs m h.1)

  insert_after :
      (v : ℤ) (xs m : List Row)
      → AllIn lo (some k) xs
      → insert_row key v (xs ++ m) ≡ xs ++ insert_row key v m
  unfolding insert_row
  insert_after v [] m h = refl
  insert_after v ((j, w) ∷ xs) m h = ground (arith, insert_after v xs m h.1)

  remove_after :
      (xs m : List Row) → AllIn lo (some k) xs → remove_row key (xs ++ m) ≡ xs ++ remove_row key m
  unfolding remove_row
  remove_after [] m h = refl
  remove_after ((j, w) ∷ xs) m h = ground (arith, remove_after xs m h.1)

  pub IsContext-left : (xs : List Row) → AllIn lo (some k) xs → IsContext key (λ m. xs ++ m)
  IsContext-left xs h = record {
    lookup = λ m. lookup_after xs m h;
    insert = λ v m. insert_after v xs m h;
    remove = λ m. remove_after xs m h;
  }

-- Rows, and then those from a separator above the key on.
module _ (key k : ℤ) (hi : Option ℤ) (lt : key <ℤ k) where
  lookup_row-above : (ys : List Row) → AllIn (some k) hi ys → lookup_row key ys ≡ none
  unfolding lookup_row
  lookup_row-above [] h = refl
  lookup_row-above ((j, v) ∷ ys) h = ground (arith, lookup_row-above ys h.1)

  remove_row-above : (ys : List Row) → AllIn (some k) hi ys → remove_row key ys ≡ ys
  unfolding remove_row
  remove_row-above [] h = refl
  remove_row-above ((j, v) ∷ ys) h = ground (arith, remove_row-above ys h.1)

  insert_row-above :
      (v : ℤ) (ys : List Row) → AllIn (some k) hi ys → insert_row key v ys ≡ (key, v) ∷ ys
  unfolding insert_row
  insert_row-above v [] h = refl
  insert_row-above v ((j, w) ∷ ys) h = ground arith

  module _ (ys : List Row) (h : AllIn (some k) hi ys) where
    lookup_before : (m : List Row) → lookup_row key (m ++ ys) ≡ lookup_row key m
    unfolding lookup_row
    lookup_before [] = lookup_row-above ys h
    lookup_before ((j, v) ∷ m) = ground (arith, lookup_before m)

    insert_before : (v : ℤ) (m : List Row) → insert_row key v (m ++ ys) ≡ insert_row key v m ++ ys
    unfolding insert_row
    insert_before v [] = insert_row-above v ys h
    insert_before v ((j, w) ∷ m) = ground (arith, insert_before v m)

    remove_before : (m : List Row) → remove_row key (m ++ ys) ≡ remove_row key m ++ ys
    unfolding remove_row
    remove_before [] = remove_row-above ys h
    remove_before ((j, w) ∷ m) = ground (arith, remove_before m)

    pub IsContext-right : IsContext key (λ m. m ++ ys)
    IsContext-right = record {
      lookup = λ m. lookup_before m;
      insert = λ v m. insert_before v m;
      remove = λ m. remove_before m;
    }

-- A changed row stays in the range.
pub insert_row-AllIn :
    (lo hi : Option ℤ) (key v : ℤ) (rows : List Row)
    → InRange lo hi key
    → AllIn lo hi rows
    → AllIn lo hi (insert_row key v rows)
unfolding insert_row
insert_row-AllIn lo hi key v [] k h = (k, tt)
insert_row-AllIn lo hi key v ((j, w) ∷ rows) k h =
    ground (arith, insert_row-AllIn lo hi key v rows k h.1)

pub remove_row-AllIn :
    (lo hi : Option ℤ) (key : ℤ) (rows : List Row)
    → AllIn lo hi rows
    → AllIn lo hi (remove_row key rows)
unfolding remove_row
remove_row-AllIn lo hi key [] h = tt
remove_row-AllIn lo hi key ((j, w) ∷ rows) h = ground (arith, remove_row-AllIn lo hi key rows h.1)
