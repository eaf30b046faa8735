-- ===== src/Composite/Entries.antt =====
-- The sorted entries of a leaf of composite.go: a key of 16 bytes and a record ID.
use index_lab.Key.{compare_keys}
use index_lab.Key.Order.{IsLess, compare_keys_refl, compare_keys_eq, compare_keys_gt}
use index_lab.Node.{is_eq}
use index_lab.Node.Entry.{Sized}
use index_lab.Node.Find.{key_at, IsSorted, IsPlace}
use index_lab.Page.Layout.{total}
use index_lab.Prelude.{
  ℕ, zero, suc, ◌+◌, ◌-◌, ◌*◌, ◌⊎◌, ◌≤◌, ◌<◌, ◌≡◌, ◌≢◌, refl, sym, ap, ◌∙◌, inl, inr, Bool, true,
  false, Option, none, some, List, [], ◌∷◌, length, get_or, take, insert_at, remove_at,
  length-insert_at, get_or-insert_at_lt, get_or-insert_at_self, get_or-insert_at_gt, arith,
  Bool-cases, if◌then◌else◌,
}
use mathlib.Core.Path.{ap₂}
use native.Mathlib.Decide.{dec_lt}

-- The first entry with the key, in a scan of all the entries.
unfoldable pub lookup_entry : ℕ → List ℕ → List (List ℕ) → Option (List ℕ)
lookup_entry w key [] = none
lookup_entry w key (e ∷ es) =
    if is_eq (compare_keys (take w e) key) then some e else lookup_entry w key es

-- The entries without the first one with the key.
unfoldable pub remove_first : ℕ → List ℕ → List (List ℕ) → List (List ℕ)
remove_first w key [] = []
remove_first w key (e ∷ es) =
    if is_eq (compare_keys (take w e) key) then es else e ∷ remove_first w key es

pub total-Sized : (es : List (List ℕ)) → Sized 16 es → total es ≡ length es * 24
total-Sized [] sized = omega arith
total-Sized (e ∷ es) sized =
    let rest = total-Sized es (λ i h. sized (suc i) (omega arith)) in
    omega (arith, sized 0 (omega arith), rest)

-- A key that is smaller is not the same.
is_eq-IsLess : (a b : List ℕ) → IsLess a b → is_eq (compare_keys a b) ≡ false
is_eq-IsLess a b h = ground arith

same-is_eq : (a b : List ℕ) → a ≡ b → is_eq (compare_keys a b) ≡ true
same-is_eq a b e = ap (λ c. is_eq (compare_keys c b)) e ∙ ap (λ o. is_eq o) (compare_keys_refl b)

module _ (w : ℕ) (key : List ℕ) where
  -- The entry at the place of a key that is there is the first one of the key.
  pub first_at :
      (es : List (List ℕ)) (i : ℕ)
      → i < length es
      → ((k : ℕ) → k < i → IsLess (key_at w es k) key)
      → key_at w es i ≡ key
      → (lookup_entry w key es ≡ some (get_or es i [])) × (remove_first w key es ≡ remove_at i es)
  unfolding lookup_entry remove_first
  first_at [] i h below e = absurd (omega arith)
  first_at (x ∷ es) zero h below e =
      let hit = same-is_eq (take w x) key e in (ground (arith, hit), ground (arith, hit))
  first_at (x ∷ es) (suc i) h below e =
      let miss = is_eq-IsLess (take w x) key (below 0 (omega arith)) in
      let (found, removed) = first_at es i (omega arith) (λ k m. below (suc k) (omega arith)) e in
      (ground (arith, miss, found), ground (arith, miss, removed))

  pub none_at :
      (es : List (List ℕ))
      → ((k : ℕ) → k < length es → key_at w es k ≢ key)
      → lookup_entry w key es ≡ none
  unfolding lookup_entry
  none_at [] other = refl
  none_at (x ∷ es) other =
      let rest = none_at es (λ k h. other (suc k) (omega arith)) in
      elim (Bool-cases (is_eq (compare_keys (take w x) key))) [
        | inl t ↦ absurd (other 0 (omega arith) (compare_keys_eq (take w x) key (ground arith)))
        | inr f ↦ ground (arith, f, rest)
      ]

-- An entry at the place of its key keeps the order.
module _ (w : ℕ) (es : List (List ℕ)) (entry : List ℕ) (i : ℕ) (found : Bool)
    (sorted : IsSorted w es) (place : IsPlace w es (take w entry) i found) where
  abbrev after : List (List ℕ)
  after = insert_at i entry es

  key_before : (k : ℕ) → k < i → key_at w after k ≡ key_at w es k
  key_before k h = ap (take w) (get_or-insert_at_lt i k entry [] es h (omega (arith, place.bound)))

  key_here : key_at w after i ≡ take w entry
  key_here = ap (take w) (get_or-insert_at_self i entry [] es place.bound)

  key_behind : (k : ℕ) → i ≤ k → key_at w after (suc k) ≡ key_at w es k
  key_behind k h = ap (take w) (get_or-insert_at_gt i k entry [] es h)

  -- Where an entry of the new list comes from.
  abbrev Origin : ℕ → Type 0
  Origin m =
      ((m < i) × (key_at w after m ≡ key_at w es m))
      ⊎ ((m ≡ i) × (key_at w after m ≡ take w entry))
      ⊎ ((k : ℕ) × (m ≡ suc k) × (i ≤ k) × (key_at w after m ≡ key_at w es k))

  origin : (m : ℕ) → Origin m
  origin m = elim (dec_lt m i) [
    | yes a ↦ inl (a, key_before m a)
    | no a ↦ elim (dec_lt i m) [
      | yes b ↦
          let up : m ≡ suc (m - 1) = omega arith in
          inr (
            inr (m - 1, up, omega arith, ap (key_at w after) up ∙ key_behind (m - 1) (omega arith)))
      | no b ↦
          let here : m ≡ i = omega arith in inr (inl (here, ap (key_at w after) here ∙ key_here))
    ]
  ]

  pub insert_at-IsSorted : IsSorted w after
  insert_at-IsSorted j k le h e =
      let size = length-insert_at i entry es in
      let target = take w entry in
      elim (origin j) [
        | inl (a, ej) ↦ elim (origin k) [
          | inl (b, ek) ↦
              sorted j k le (omega (arith, place.bound)) (sym (ap₂ compare_keys ej ek) ∙ e)
          | inr (inl (b, ek)) ↦ ground (arith, place.below j a, sym (ap₂ compare_keys ej ek) ∙ e)
          | inr (inr (m, up, b, ek)) ↦
              sorted j m (omega arith) (omega (arith, size)) (sym (ap₂ compare_keys ej ek) ∙ e)
        ]
        | inr (inl (a, ej)) ↦ elim (origin k) [
          | inl (b, ek) ↦ absurd (omega arith)
          | inr (inl (b, ek)) ↦
              ground (arith, compare_keys_refl target, sym (ap₂ compare_keys ej ek) ∙ e)
          | inr (inr (m, up, b, ek)) ↦
              place.above m b (omega (arith, size))
                (compare_keys_gt target (key_at w es m) (sym (ap₂ compare_keys ej ek) ∙ e))
        ]
        | inr (inr (l, up', a, ej)) ↦ elim (origin k) [
          | inl (b, ek) ↦ absurd (omega arith)
          | inr (inl (b, ek)) ↦ absurd (omega arith)
          | inr (inr (m, up, b, ek)) ↦
              sorted l m (omega arith) (omega (arith, size)) (sym (ap₂ compare_keys ej ek) ∙ e)
        ]
      ]

  pub insert_at-Sized : Sized w es → length entry ≡ w + 8 → Sized w after
  insert_at-Sized sized size m h = elim (dec_lt m i) [
    | yes a ↦
        ap length (get_or-insert_at_lt i m entry [] es a (omega (arith, place.bound)))
        ∙ sized m (omega (arith, place.bound))
    | no a ↦ elim (dec_lt i m) [
      | yes b ↦
          let up : m ≡ suc (m - 1) = omega arith in
          ap length (
            ap (λ k. get_or after k []) up
            ∙ get_or-insert_at_gt i (m - 1) entry [] es (omega arith))
          ∙ sized (m - 1) (omega (arith, length-insert_at i entry es))
      | no b ↦
          let here : m ≡ i = omega arith in
          ap length
            (ap (λ k. get_or after k []) here ∙ get_or-insert_at_self i entry [] es place.bound)
          ∙ size
    ]
  ]
