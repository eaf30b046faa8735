-- ===== src/Node/Child.antt =====
-- `findChildPageID` on a well-formed internal page: the binary search against a scan of the branches.
use Prim.Native.Nat.{Ordering}
use index_lab.Bytes.{uint64, uint64-be_bytes, length-be_bytes}
use index_lab.Key.{IsInt64, encode_int64, compare_keys}
use index_lab.Key.Order.{compare_keys-encode_int64}
use index_lab.Key.RoundTrip.{length-encode_int64}
use index_lab.Node.{encode_child_id, find_child_page_id, entry_prefix, is_gt}
use index_lab.Node.Entry.{Sized, entry_key_len-Layout, entry_prefix-Layout, child_at-Layout}
use index_lab.Node.Find.{key_at, IsSorted, gt_mono}
use index_lab.Page.{Page, PageId, word16, num_entries, leftmost_child_page_id}
use index_lab.Page.Layout.{Layout}
use index_lab.Prelude.{
  ℕ, zero, suc, ◌^◌, ◌-◌, ◌<◌, ◌≡◌, ◌≢◌, refl, sym, ap, ◌∙◌, Bool, Option, some, List, [], ◌∷◌,
  ◌++◌, length, length-append, get_or, take, drop, take-append, drop-append, arith, ◌>>=◌,
  if◌then◌else◌,
}
use index_lab.Prelude.Int.{ℤ, pos, ◌≤ℤ◌, ltb_ℤ}
use index_lab.Search.{search-IsSplit, IsSplit}
use mathlib.Core.List.{append-nil}
use native.Mathlib.Decide.{dec_lt}

-- A separator and the child that holds the keys from it on.
abbrev pub Branch : Type 0
Branch = ℤ × PageId

abbrev pub encode_branch : Branch → List ℕ
encode_branch (key, child) = encode_int64 key ++ encode_child_id child

abbrev pub encode_branches : List Branch → List (List ℕ)
encode_branches [] = []
encode_branches (b ∷ branches) = encode_branch b ∷ encode_branches branches

-- Separators are int64 values and children are 64-bit page IDs.
abbrev pub AreBranches : List Branch → Type 0
AreBranches [] = Unit
AreBranches ((key, child) ∷ branches) = IsInt64 key × (child < 2 ^ 64) × AreBranches branches

abbrev pub NoneBelow : ℤ → List Branch → Type 0
NoneBelow key [] = Unit
NoneBelow key ((k, _) ∷ branches) = (key ≤ℤ k) × NoneBelow key branches

abbrev pub AscendingBranches : List Branch → Type 0
AscendingBranches [] = Unit
AscendingBranches ((key, _) ∷ branches) = NoneBelow key branches × AscendingBranches branches

-- The child before the first separator above the key, from the leftmost child on.
unfoldable pub child_of : PageId → ℤ → List Branch → PageId
child_of child key [] = child
child_of child key ((k, c) ∷ branches) = if ltb_ℤ key k then child else child_of c key branches

abbrev pub children : List Branch → List PageId
children [] = []
children ((_, c) ∷ branches) = c ∷ children branches

take-encode_branch : (b : Branch) → take 8 (encode_branch b) ≡ encode_int64 b.0
take-encode_branch (k, c) =
    ap (λ n. take n (encode_branch (k, c))) (sym (length-encode_int64 k))
    ∙ take-append (encode_int64 k) (encode_child_id c)

drop-encode_branch : (b : Branch) → drop 8 (encode_branch b) ≡ encode_child_id b.1
drop-encode_branch (k, c) =
    ap (λ n. drop n (encode_branch (k, c))) (sym (length-encode_int64 k))
    ∙ drop-append (encode_int64 k) (encode_child_id c)

pub length-encode_branch : (b : Branch) → length (encode_branch b) ≡ 16
unfolding encode_child_id
length-encode_branch (k, c) = omega (
  arith,
  length-append (encode_int64 k) (encode_child_id c),
  length-encode_int64 k,
  length-be_bytes 8 c,
)

pub length-encode_branches :
    (branches : List Branch) → length (encode_branches branches) ≡ length branches
length-encode_branches [] = refl
length-encode_branches (b ∷ branches) = omega (arith, length-encode_branches branches)

pub encode_branches-Sized : (branches : List Branch) → Sized 8 (encode_branches branches)
encode_branches-Sized [] i h = absurd (omega arith)
encode_branches-Sized (b ∷ branches) zero h = length-encode_branch b
encode_branches-Sized (b ∷ branches) (suc i) h = encode_branches-Sized branches i (omega arith)

-- The pointer of branch `i`.
pub child_bytes :
    (branches : List Branch) (i : ℕ)
    → AreBranches branches
    → i < length branches
    → uint64 (drop 8 (get_or (encode_branches branches) i []))
      ≡ some (get_or (children branches) i 0)
unfolding encode_child_id
child_bytes [] i a h = absurd (omega arith)
child_bytes ((k, c) ∷ branches) zero a h =
    ap uint64 (drop-encode_branch (k, c) ∙ sym (append-nil (encode_child_id c)))
    ∙ uint64-be_bytes c [] a.1
child_bytes ((k, c) ∷ branches) (suc i) a h = child_bytes branches i a.2 (omega arith)

NoneBelow-at :
    (key : ℤ) (branches : List Branch) (i : ℕ)
    → IsInt64 key
    → AreBranches branches
    → NoneBelow key branches
    → i < length branches
    → compare_keys (encode_int64 key) (key_at 8 (encode_branches branches) i) ≢ Ordering.gt
NoneBelow-at key [] i hk a g h = absurd (omega arith)
NoneBelow-at key ((k, c) ∷ branches) zero hk a g h =
    rw (take-encode_branch (k, c), compare_keys-encode_int64 key k hk a.0) (λ e. ground arith)
NoneBelow-at key ((k, c) ∷ branches) (suc i) hk a g h =
    NoneBelow-at key branches i hk a.2 g.1 (omega arith)

encode_branches-IsSorted :
    (branches : List Branch)
    → AreBranches branches
    → AscendingBranches branches
    → IsSorted 8 (encode_branches branches)
encode_branches-IsSorted [] a asc i j le h = absurd (omega arith)
encode_branches-IsSorted ((k, c) ∷ branches) a asc zero zero le h =
    rw (take-encode_branch (k, c), compare_keys-encode_int64 k k a.0 a.0) (λ e. ground arith)
encode_branches-IsSorted ((k, c) ∷ branches) a asc zero (suc j) le h =
    rw (take-encode_branch (k, c))
      (NoneBelow-at k branches j a.0 a.2 asc.0 (omega (arith, length-encode_branches branches)))
encode_branches-IsSorted ((k, c) ∷ branches) a asc (suc i) zero le h = absurd (omega arith)
encode_branches-IsSorted ((k, c) ∷ branches) a asc (suc i) (suc j) le h =
    encode_branches-IsSorted branches a.2 asc.1 i j (omega arith) (omega arith)

-- Whether separator `i` is above the key, as the bytes compare.
abbrev is_above : ℤ → List Branch → ℕ → Bool
is_above key branches i =
    is_gt (compare_keys (key_at 8 (encode_branches branches) i) (encode_int64 key))

is_above-first :
    (key k : ℤ) (c : PageId) (branches : List Branch)
    → IsInt64 key
    → IsInt64 k
    → is_above key ((k, c) ∷ branches) 0 ≡ ltb_ℤ key k
is_above-first key k c branches hk h =
    rw (take-encode_branch (k, c), compare_keys-encode_int64 k key h hk) (ground arith)

-- The index that splits the separators is that of the child among all children.
child_of-split :
    (child : PageId) (key : ℤ) (branches : List Branch) (r : ℕ)
    → IsInt64 key
    → AreBranches branches
    → IsSplit (is_above key branches) (length branches) r
    → get_or (child ∷ children branches) r 0 ≡ child_of child key branches
unfolding child_of
child_of-split child key [] r hk a split =
    let none_there : r ≡ 0 = omega (arith, split.bound) in rw none_there
child_of-split child key ((k, c) ∷ branches) zero hk a split =
    let first = is_above-first key k c branches hk a.0 in
    ground (arith, split.above 0 (omega arith) (omega arith), first)
child_of-split child key ((k, c) ∷ branches) (suc r) hk a split =
    let first = is_above-first key k c branches hk a.0 in
    let rest = child_of-split c key branches r hk a.2 (record {
      bound = omega (arith, split.bound);
      below = λ i h. split.below (suc i) (omega arith);
      above = λ i h k. split.above (suc i) (omega arith) (omega arith);
    }) in
    ground (arith, split.below 0 (omega arith), first, rest)

module _ (p : Page) (branches : List Branch) (key : ℤ) (l : Layout p (encode_branches branches))
    (a : AreBranches branches) (asc : AscendingBranches branches) (hk : IsInt64 key) where
  abbrev probe_gt : ℕ → Option Bool
  probe_gt i =
      entry_prefix p (word16 i) (pos 8) >>= λ k. some (is_gt (compare_keys k (encode_int64 key)))

  probe : (i : ℕ) → i < length branches → probe_gt i ≡ some (is_above key branches i)
  probe i h =
      let count = length-encode_branches branches in
      let wrap : word16 i ≡ i = omega (arith, l.fits, count) in
      rw (
        wrap,
        entry_prefix-Layout p (encode_branches branches) 8 l (encode_branches-Sized branches) i
            (omega (arith, count)),
      )

  -- On a well-formed page whose branches have int64 separators in ascending order and 64-bit
  -- children, `findChildPageID` for an int64 key does not panic and returns the child before the
  -- first separator above the key, or the last child if there is no such separator.
  pub find_child_page_id-child_of :
      find_child_page_id p (encode_int64 key)
      ≡ some (child_of (leftmost_child_page_id p) key branches)
  unfolding find_child_page_id
  find_child_page_id-child_of =
      let c = leftmost_child_page_id p in
      let count = length-encode_branches branches in
      let (r, run, split) =
        search-IsSplit probe_gt (is_above key branches) (length branches) probe (λ i k le h.
          gt_mono (key_at 8 (encode_branches branches) i) (key_at 8 (encode_branches branches) k)
            (encode_int64 key)
            (encode_branches-IsSorted branches a asc i k le (omega (arith, count)))) in
      let scan = child_of-split c key branches r hk a split in
      elim (dec_lt 0 (length branches)) [
        | no none_there ↦
            let first : r ≡ 0 = omega (arith, split.bound) in
            let empty : num_entries p ≡ 0 = omega (arith, l.count, count) in
            ground (arith, empty, sym (ap (λ i. get_or (c ∷ children branches) i 0) first) ∙ scan)
        | yes some_there ↦
            let key_len =
              entry_key_len-Layout p (encode_branches branches) 8 l (encode_branches-Sized branches)
                (omega (arith, count)) in
            let size : num_entries p ≡ length branches = omega (arith, l.count, count) in
            elim (dec_lt 0 r) [
              | no first ↦
                  let zero_there : r ≡ 0 = omega arith in
                  let leftmost =
                    sym (ap (λ i. get_or (c ∷ children branches) i 0) zero_there) ∙ scan in
                  ground (arith, size, key_len, run, leftmost)
              | yes later ↦
                  let wrap : word16 (r - 1) ≡ r - 1 = omega (arith, l.fits, split.bound, count) in
                  let after : r ≡ suc (r - 1) = omega arith in
                  let inside : r - 1 < length branches = omega (arith, split.bound) in
                  let bytes =
                    child_at-Layout p (encode_branches branches) 8 l
                      (encode_branches-Sized branches) (r - 1) (omega (arith, count)) in
                  let pointer = child_bytes branches (r - 1) a inside in
                  let chosen = sym (ap (λ i. get_or (c ∷ children branches) i 0) after) ∙ scan in
                  ground (arith, size, key_len, run, wrap, bytes ∙ pointer, ap some chosen)
            ]
      ]
