-- ===== src/Page/Delete.antt =====
-- `DeleteEntry` on a well-formed page rebuilds the page without the entry.
use native.Mathlib.Decide.{dec_lt}
use index_lab.Page.{
  Page, page_size, word16, num_entries, free_space_offset, get_field, set_field, set_num_entries,
  set_free_space_offset, other_entries, insert_all, delete_entry,
}
use index_lab.Page.Insert.{insert_entry-Layout}
use index_lab.Page.Layout.{
  Layout, SameHeader, SameHeader-refl, SameHeader-trans, total, total-append,
}
use index_lab.Page.Suffix.{Suffix, Suffix-head, Suffix-tail}
use index_lab.Page.Slots.{put_int, int_at-put_int_self, int_at-put_int_apart, put_int_outside}
use index_lab.Prelude.{
  ℕ, zero, suc, ◌+◌, ◌*◌, ◌≤◌, ◌<◌, ◌≡◌, ◌⊎◌, inl, inr, refl, sym, ap, ◌∙◌, List, [], ◌∷◌, ◌++◌,
  some, length, get_or, remove_at, insert_at-length, length-append, arith,
}
use mathlib.Core.List.{append_assoc, append-nil}
use mathlib.Core.Path.{subst}

-- The page after `setNumEntries(0)` and `setFreeSpaceOffset(PageSize)`.
abbrev cleared : Page → Page
cleared p = record p { bytes = put_int (put_int p.bytes 1 2 0) 3 2 page_size }

cleared-Layout : (p : Page) → Layout (cleared p) []
unfolding num_entries free_space_offset get_field
cleared-Layout p = record {
  count = omega (
    arith,
    int_at-put_int_apart (put_int p.bytes 1 2 0) 3 2 page_size 1 2 (inl (omega arith)),
    int_at-put_int_self p.bytes 1 2 0 (omega arith),
  );
  free = omega (arith, int_at-put_int_self (put_int p.bytes 1 2 0) 3 2 page_size (omega arith));
  fits = omega arith;
  stored = λ i h. absurd (omega arith);
}

cleared-SameHeader : (p : Page) → SameHeader p (cleared p)
cleared-SameHeader p = record {
  id = refl;
  page_type = outside 0 (omega arith);
  links = λ b h k. outside b (omega arith);
}
  where
    outside : (b : ℕ) → (b < 1) ⊎ (5 ≤ b) → (cleared p).bytes b ≡ p.bytes b
    outside b h =
        put_int_outside (put_int p.bytes 1 2 0) 3 2 page_size b (omega arith)
        ∙ put_int_outside p.bytes 1 2 0 b (omega arith)

-- Inserting a list of entries one after the other at the end of a page appends it.
pub insert_all-Layout :
    (xs : List (List ℕ)) (p : Page) (es : List (List ℕ))
    → Layout p es
    → 21 + (length es + length xs) * 4 + (total es + total xs) ≤ page_size
    → (q : Page) × (insert_all p (length es) xs ≡ some q) × Layout q (es ++ xs) × SameHeader p q
unfolding insert_all
insert_all-Layout [] p es l room =
    (p, refl, subst (Layout p) (sym (append-nil es)) l, SameHeader-refl p)
insert_all-Layout (x ∷ xs) p es l room =
    let (p', run, l', same) =
      insert_entry-Layout p es (length es) x l (omega arith) (omega arith) in
    let l'' : Layout p' (es ++ (x ∷ [])) = subst (Layout p') (insert_at-length x es) l' in
    let more : length (es ++ (x ∷ [])) ≡ length es + 1 = length-append es (x ∷ []) in
    let (q, rest, lq, same') =
      insert_all-Layout xs p' (es ++ (x ∷ [])) l''
        (omega (arith, more, total-append es (x ∷ []))) in
    let wrap : word16 (length es) ≡ length es = omega arith in
    (
      q,
      rw (wrap, run) (subst (λ k. insert_all p' k xs ≡ some q) more rest),
      subst (Layout q) (append_assoc es (x ∷ []) xs) lq,
      SameHeader-trans same same',
    )

length-remove_at-le :
    (k : ℕ) (xs : List (List ℕ))
    → (length (remove_at k xs) ≤ length xs) × (total (remove_at k xs) ≤ total xs)
length-remove_at-le k [] = omega arith
length-remove_at-le zero (x ∷ xs) = omega arith
length-remove_at-le (suc k) (x ∷ xs) = omega (arith, length-remove_at-le k xs)

remove_at_past : (k : ℕ) (xs : List (List ℕ)) → length xs ≤ k → remove_at k xs ≡ xs
remove_at_past k [] h = refl
remove_at_past zero (x ∷ xs) h = absurd (omega arith)
remove_at_past (suc k) (x ∷ xs) h = ap (◌∷◌ x) (remove_at_past k xs (omega arith))

-- The index is that of an entry, or the page stays as it is.
abbrev pub Untouched : ℕ → ℕ → Page → Page → Type 0
Untouched slot size p q = (slot < size) ⊎ (q ≡ p)

module _ (p : Page) (es : List (List ℕ)) (l : Layout p es) where
  others_after :
      (slot from : ℕ) (xs : List (List ℕ))
      → Suffix es from xs
      → slot < from
      → other_entries p slot (length xs) from ≡ some xs
  unfolding other_entries
  others_after slot from [] s h = refl
  others_after slot from (x ∷ xs) s h = ground (
    arith,
    Suffix-head p es l from x xs s,
    others_after slot (from + 1) xs (Suffix-tail es from x xs s) (omega arith),
  )

  others_until :
      (k slot from : ℕ) (xs : List (List ℕ))
      → Suffix es from xs
      → slot ≡ from + k
      → other_entries p slot (length xs) from ≡ some (remove_at k xs)
  unfolding other_entries
  others_until k slot from [] s e = refl
  others_until zero slot from (x ∷ xs) s e =
      ground (arith, others_after slot (from + 1) xs (Suffix-tail es from x xs s) (omega arith))
  others_until (suc k) slot from (x ∷ xs) s e = ground (
    arith,
    Suffix-head p es l from x xs s,
    others_until k slot (from + 1) xs (Suffix-tail es from x xs s) (omega arith),
  )

  -- On a well-formed page `DeleteEntry` does not panic. The new page is well formed, stores the
  -- entries without the one at the index, and has the ID, the type and the links of before; for an
  -- index past the last entry it is the page itself.
  pub delete_entry-Layout :
      (slot : ℕ)
      → (q : Page) × (delete_entry p slot ≡ some q)
        × Layout q (remove_at slot es)
        × SameHeader p q
        × Untouched slot (length es) p q
  unfolding delete_entry set_free_space_offset set_num_entries set_field
  delete_entry-Layout slot = elim (dec_lt slot (length es)) [
    | yes h ↦
        let (q, run, lq, same) =
          insert_all-Layout (remove_at slot es) (cleared p) [] (cleared-Layout p)
            (omega (arith, length-remove_at-le slot es, l.fits)) in
        (
          q,
          ground (
            arith,
            l.count,
            others_until slot slot 0 es (omega arith, λ k m. ap (λ t. get_or es t []) (omega arith))
                (omega arith),
            run,
          ),
          lq,
          SameHeader-trans (cleared-SameHeader p) same,
          inl h,
        )
    | no h ↦ (
      p,
      ground (arith, l.count),
      subst (Layout p) (sym (remove_at_past slot es (omega arith))) l,
      SameHeader-refl p,
      inr refl,
    )
  ]
