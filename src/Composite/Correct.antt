-- ===== src/Composite/Correct.antt =====
-- `InsertComposite`, and `Search` and `Delete` of composite.go in a leaf, on sorted entries.
use index_lab.Composite.{insert_composite, search_leaf, delete_in_leaf}
use index_lab.Composite.Entries.{
  lookup_entry, remove_first, total-Sized, first_at, none_at, insert_at-IsSorted, insert_at-Sized,
}
use index_lab.Errors.{ok, err, key_not_found}
use index_lab.Key.{encode_int64, decode_int64, encode_composite_key, compare_keys}
use index_lab.Key.Order.{compare_keys_refl}
use index_lab.Key.RoundTrip.{length-encode_int64}
use index_lab.Node.{is_eq, suffix}
use index_lab.Node.Entry.{entry_prefix-Layout, Sized}
use index_lab.Node.Find.{key_at, IsSorted, IsPlace, find_key_index-IsPlace}
use index_lab.Page.{Page, has_space_for}
use index_lab.Page.Delete.{delete_entry-Layout}
use index_lab.Page.Insert.{insert_entry-Layout}
use index_lab.Page.Layout.{Layout, SameHeader, has_space_for-Layout, get_entry-Layout}
use index_lab.Prelude.{
  ℕ, ◌+◌, ◌⊎◌, ◌<◌, ◌≡◌, sym, ap, ◌∙◌, inl, inr, Bool, true, false, Option, none, some, List, [],
  ◌++◌, length, length-append, get_or, take, drop, take-append, insert_at, arith, Bool-cases, ◌>>=◌,
}
use index_lab.Prelude.Int.{ℤ, pos}
use mathlib.Core.Path.{subst}

abbrev pub composite_entry : ℤ → ℤ → ℤ → List ℕ
composite_entry a b v = encode_composite_key a b ++ encode_int64 v

length-encode_composite_key : (a b : ℤ) → length (encode_composite_key a b) ≡ 16
unfolding encode_composite_key
length-encode_composite_key a b = omega (
  arith,
  length-append (encode_int64 a) (encode_int64 b),
  length-encode_int64 a,
  length-encode_int64 b,
)

pub length-composite_entry : (a b v : ℤ) → length (composite_entry a b v) ≡ 24
length-composite_entry a b v = omega (
  arith,
  length-append (encode_composite_key a b) (encode_int64 v),
  length-encode_composite_key a b,
  length-encode_int64 v,
)

take-composite_entry : (a b v : ℤ) → take 16 (composite_entry a b v) ≡ encode_composite_key a b
take-composite_entry a b v =
    ap (λ n. take n (composite_entry a b v)) (sym (length-encode_composite_key a b))
    ∙ take-append (encode_composite_key a b) (encode_int64 v)

entry_tail : (e : List ℕ) → length e ≡ 16 + 8 → suffix e (pos 16) ≡ some (drop 16 e)
unfolding suffix
entry_tail e h = ground arith

-- What `Search` answers for the entry that it finds.
abbrev pub answer_entry : Option (List ℕ) → Option (ℤ × Bool)
answer_entry none = some (pos 0, false)
answer_entry (some e) = decode_int64 (drop 16 e) >>= λ v. some (v, true)

module _ (p : Page) (es : List (List ℕ)) (a b : ℤ) (l : Layout p es) (sized : Sized 16 es)
    (sorted : IsSorted 16 es) where
  abbrev key : List ℕ
  key = encode_composite_key a b

  -- `InsertComposite` into a well-formed leaf of sorted entries of 24 bytes, fewer than 145, does
  -- not panic. It puts the entry at the place of its key: the leaf is again well formed and sorted,
  -- and has the ID, the type and the links of before.
  pub insert_composite-IsSorted :
      (v : ℤ)
      → length es < 145
      → (i : ℕ) × (found : Bool) × (q : Page) × (insert_composite p a b v ≡ some (ok q))
        × IsPlace 16 es key i found
        × Layout q (insert_at i (composite_entry a b v) es)
        × Sized 16 (insert_at i (composite_entry a b v) es)
        × IsSorted 16 (insert_at i (composite_entry a b v) es)
        × SameHeader p q
  unfolding insert_composite
  insert_composite-IsSorted v room =
      let (i, found, run, place) = find_key_index-IsPlace p es 16 key l sized sorted in
      let entry = composite_entry a b v in
      let size = length-composite_entry a b v in
      let bytes = total-Sized es sized in
      let place' = subst (λ k. IsPlace 16 es k i found) (sym (take-composite_entry a b v)) place in
      let (q, done, stored, same) =
        insert_entry-Layout p es i entry l place.bound (omega (arith, bytes, size)) in
      let fits : has_space_for p (length entry) ≡ true =
        has_space_for-Layout p es (length entry) l ∙ ground (arith, bytes, size) in
      (
        i,
        found,
        q,
        rw (run, fits, done),
        place,
        stored,
        insert_at-Sized 16 es entry i found sorted place' sized size,
        insert_at-IsSorted 16 es entry i found sorted place',
        same,
      )

  -- In a well-formed leaf of sorted entries of 24 bytes, `Search` for two columns answers what a
  -- scan of all the entries finds: the record ID of the first entry with the key, or that there is
  -- none.
  pub search_leaf-lookup_entry : search_leaf p a b ≡ answer_entry (lookup_entry 16 key es)
  unfolding search_leaf
  search_leaf-lookup_entry =
      let (i, found, run, place) = find_key_index-IsPlace p es 16 key l sized sorted in
      elim (Bool-cases found) [
        | inr f ↦ let miss = none_at 16 key es (place.miss f) in ground (arith, run, f, miss)
        | inl t ↦
            let (inside, same) = place.hit t in
            let (hit, _) = first_at 16 key es i inside place.below same in
            let head = entry_prefix-Layout p es 16 l sized i inside in
            let tail = entry_tail (get_or es i []) (sized i inside) in
            let got = get_entry-Layout p es i l inside in
            let equal : is_eq (compare_keys (key_at 16 es i) key) ≡ true =
              ap (λ k. is_eq (compare_keys k key)) same ∙ ap is_eq (compare_keys_refl key) in
            ground (arith, run, t, got, head, equal, tail, hit)
      ]

  -- In a well-formed leaf of sorted entries of 24 bytes, `Delete` of two columns takes the first
  -- entry of the key out and keeps the ID, the type and the links of the page if a scan of the
  -- entries finds the key, and answers that the key was not found otherwise. It does not panic.
  pub delete_in_leaf-remove_first :
      ((lookup_entry 16 key es ≡ none) × (delete_in_leaf p a b ≡ some (err key_not_found)))
      ⊎ ((e : List ℕ) × (q : Page) × (lookup_entry 16 key es ≡ some e)
          × (delete_in_leaf p a b ≡ some (ok q))
          × Layout q (remove_first 16 key es)
          × SameHeader p q)
  unfolding delete_in_leaf
  delete_in_leaf-remove_first =
      let (i, found, run, place) = find_key_index-IsPlace p es 16 key l sized sorted in
      elim (Bool-cases found) [
        | inr f ↦ inl (none_at 16 key es (place.miss f), ground (arith, run, f))
        | inl t ↦
            let (inside, same) = place.hit t in
            let (hit, removed) = first_at 16 key es i inside place.below same in
            let head = entry_prefix-Layout p es 16 l sized i inside in
            let equal : is_eq (compare_keys (key_at 16 es i) key) ≡ true =
              ap (λ k. is_eq (compare_keys k key)) same ∙ ap is_eq (compare_keys_refl key) in
            let (q, done, stored, header, _) = delete_entry-Layout p es l i in
            inr (
              get_or es i [],
              q,
              hit,
              ground (arith, run, t, head, equal, done),
              subst (Layout q) (sym removed) stored,
              header,
            )
      ]
