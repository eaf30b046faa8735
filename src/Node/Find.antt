-- ===== src/Node/Find.antt =====
-- `findKeyIndex` and `findChildPageID` on well-formed pages with sorted keys.
use Prim.Native.Nat.{Ordering}
use index_lab.Key.{compare_keys}
use index_lab.Key.Order.{IsLess, IsLess-trans, compare_keys_refl, compare_keys_eq}
use index_lab.Node.{find_key_index, is_ge, is_gt, is_eq, entry_prefix}
use index_lab.Node.Entry.{Sized, entry_key_len-Layout, entry_prefix-Layout}
use index_lab.Page.{Page, word16}
use index_lab.Page.Layout.{Layout}
use index_lab.Prelude.{
  ℕ, ◌≤◌, ◌<◌, ◌≡◌, ◌≢◌, ap, ◌∙◌, Bool, true, false, Option, some, List, [], length, get_or, take,
  arith, ◌>>=◌,
}
use index_lab.Prelude.Int.{pos}
use index_lab.Search.{search-IsSplit, IsSplit}
use native.Mathlib.Decide.{dec_lt}

-- The key of entry `i`, of `w` bytes.
abbrev pub key_at : ℕ → List (List ℕ) → ℕ → List ℕ
key_at w es i = take w (get_or es i [])

-- Keys stand in ascending order; equal keys may follow one another.
abbrev pub IsSorted : ℕ → List (List ℕ) → Type 0
IsSorted w es =
    (i k : ℕ) → i ≤ k → k < length es → compare_keys (key_at w es i) (key_at w es k) ≢ Ordering.gt

-- From a key that is not below the target, no later key is.
ge_mono :
    (a b t : List ℕ)
    → compare_keys a b ≢ Ordering.gt
    → is_ge (compare_keys a t) ≡ true
    → is_ge (compare_keys b t) ≡ true
ge_mono a b t le h = ground (arith, IsLess-trans a b t, compare_keys_eq a b)

pub gt_mono :
    (a b t : List ℕ)
    → compare_keys a b ≢ Ordering.gt
    → is_gt (compare_keys a t) ≡ true
    → is_gt (compare_keys b t) ≡ true
gt_mono a b t le h = ground (arith, IsLess-trans a b t, compare_keys_eq a b, compare_keys_eq b t)

-- `i` is where the target belongs among the sorted keys, and `found` tells whether it is there.
pub record IsPlace (w : ℕ) (es : List (List ℕ)) (target : List ℕ) (i : ℕ) (found : Bool)
    : Type 0 where
  pub bound : i ≤ length es
  pub below : (k : ℕ) → k < i → IsLess (key_at w es k) target
  pub above : (k : ℕ) → i ≤ k → k < length es → compare_keys (key_at w es k) target ≢ Ordering.lt
  pub hit : found ≡ true → (i < length es) × (key_at w es i ≡ target)
  pub miss : found ≡ false → (k : ℕ) → k < length es → key_at w es k ≢ target

module _ (p : Page) (es : List (List ℕ)) (w : ℕ) (target : List ℕ) (l : Layout p es)
    (sized : Sized w es) (sorted : IsSorted w es) where
  abbrev test_ge : ℕ → Bool
  test_ge i = is_ge (compare_keys (key_at w es i) target)

  abbrev probe_ge : ℕ → Option Bool
  probe_ge i = entry_prefix p (word16 i) (pos w) >>= λ key. some (is_ge (compare_keys key target))

  probe : (i : ℕ) → i < length es → entry_prefix p (word16 i) (pos w) ≡ some (key_at w es i)
  probe i h =
      let wrap : word16 i ≡ i = omega (arith, l.fits) in
      rw wrap (entry_prefix-Layout p es w l sized i h)

  place :
      (r : ℕ)
      → IsSplit test_ge (length es) r
      → (found : Bool)
      → (found ≡ true → (r < length es) × (compare_keys (key_at w es r) target ≡ Ordering.eq))
      → (found ≡ false → r < length es → compare_keys (key_at w es r) target ≢ Ordering.eq)
      → IsPlace w es target r found
  place r split found there not_there = record {
    bound = split.bound;
    below = λ k h. ground (arith, split.below k h);
    above = λ k a b e. ground (arith, split.above k a b, e);
    hit = λ e. ((there e).0, compare_keys_eq (key_at w es r) target (there e).1);
    miss = λ e k h same.
        let equal : compare_keys (key_at w es k) target ≡ Ordering.eq =
          ap (λ a. compare_keys a target) same ∙ compare_keys_refl target in
        elim (dec_lt k r) [
          | yes a ↦ ground (arith, split.below k a, equal)
          | no a ↦
              let at_r : compare_keys (key_at w es r) (key_at w es k)
                  ≡ compare_keys (key_at w es r) target =
                ap (compare_keys (key_at w es r)) same in
              ground (
                arith,
                split.above r (omega arith) (omega arith),
                sorted r k (omega arith) h,
                at_r,
                not_there e (omega arith),
              )
        ];
  }

  -- On a well-formed page whose entries have keys of one width in ascending order, `findKeyIndex`
  -- does not panic: it returns an index with smaller keys before it and no smaller key from it on,
  -- and says whether the key is there.
  pub find_key_index-IsPlace :
      (i : ℕ) × (found : Bool) × (find_key_index p target ≡ some (i, found))
      × IsPlace w es target i found
  unfolding find_key_index
  find_key_index-IsPlace = elim (dec_lt 0 (length es)) [
    | no none_there ↦ (
      0,
      false,
      ground (arith, l.count),
      record {
        bound = omega arith;
        below = λ k h. absurd (omega arith);
        above = λ k a b. absurd (omega arith);
        hit = λ e. cc;
        miss = λ e k h. absurd (omega arith);
      },
    )
    | yes some_there ↦
        let (r, run, split) =
          search-IsSplit probe_ge test_ge (length es) (λ i h. rw (probe i h))
            (λ i k a b. ge_mono (key_at w es i) (key_at w es k) target (sorted i k a b)) in
        let wrap : word16 r ≡ r = omega (arith, l.fits, split.bound) in
        let key_len = entry_key_len-Layout p es w l sized some_there in
        elim (dec_lt r (length es)) [
          | yes inside ↦ (
            r,
            is_eq (compare_keys (key_at w es r) target),
            ground (arith, l.count, key_len, run, wrap, probe r inside),
            place r split (is_eq (compare_keys (key_at w es r) target))
                (λ e. (inside, ground arith)) (λ e h k. ground arith),
          )
          | no outside ↦ (
            r,
            false,
            ground (arith, l.count, key_len, run, wrap),
            place r split false (λ e. cc) (λ e h. absurd (omega arith)),
          )
        ]
  ]
