-- ===== src/Node/Move.antt =====
-- The loops of node.go that move entries between pages, on well-formed pages.
use index_lab.Page.{Page, num_entries, page_size, insert_entry}
use index_lab.Page.Insert.{insert_entry-Layout}
use index_lab.Page.Delete.{delete_entry-Layout}
use index_lab.Page.Layout.{
  Layout, SameHeader, SameHeader-refl, SameHeader-trans, total, total-append,
}
use index_lab.Page.Suffix.{Suffix, Suffix-tail, Suffix-head}
use index_lab.Node.{append_all, append_entries, copy_entries, delete_down}
use index_lab.Prelude.{
  ◌>>=◌, ℕ, zero, suc, ◌+◌, ◌*◌, ◌≤◌, ◌≡◌, refl, sym, ap, List, [], ◌∷◌, ◌++◌, some, length,
  length-append, take, take_whole, remove_at, insert_at-length, length-take, arith,
}
use mathlib.Core.List.{append_assoc, append-nil}
use mathlib.Core.Path.{subst, fun_ext}

-- Copying the entries from an index on returns them.
pub copy_entries-Layout :
    (xs : List (List ℕ)) (p : Page) (es : List (List ℕ)) (i : ℕ)
    → Layout p es
    → Suffix es i xs
    → copy_entries p (length xs) i ≡ some xs
unfolding copy_entries
copy_entries-Layout [] p es i l s = refl
copy_entries-Layout (x ∷ xs) p es i l s = ground (
  arith,
  Suffix-head p es l i x xs s,
  copy_entries-Layout xs p es (i + 1) l (Suffix-tail es i x xs s),
)

-- Copying them one by one into another page inserts the same entries.
pub append_entries-append_all :
    (xs : List (List ℕ)) (left p : Page) (es : List (List ℕ)) (i : ℕ)
    → Layout p es
    → Suffix es i xs
    → append_entries left p (length xs) i ≡ append_all left xs
unfolding append_entries append_all
append_entries-append_all [] left p es i l s = refl
append_entries-append_all (x ∷ xs) left p es i l s = rw (Suffix-head p es l i x xs s) (
    ap (λ f. insert_entry left (num_entries left) x >>= f)
      (fun_ext
        (λ left'. append_entries-append_all xs left' p es (i + 1) l (Suffix-tail es i x xs s))))

-- A list of entries is appended where all of them fit.
pub append_all-Layout :
    (xs : List (List ℕ)) (p : Page) (es : List (List ℕ))
    → Layout p es
    → 21 + (length es + length xs) * 4 + (total es + total xs) ≤ page_size
    → (q : Page) × (append_all p xs ≡ some q) × Layout q (es ++ xs) × SameHeader p q
unfolding append_all
append_all-Layout [] p es l room =
    (p, refl, subst (Layout p) (sym (append-nil es)) l, SameHeader-refl p)
append_all-Layout (x ∷ xs) p es l room =
    let (p', run, l', same) =
      insert_entry-Layout p es (length es) x l (omega arith) (omega arith) in
    let l'' : Layout p' (es ++ (x ∷ [])) = subst (Layout p') (insert_at-length x es) l' in
    let more = length-append es (x ∷ []) in
    let (q, rest, lq, same') =
      append_all-Layout xs p' (es ++ (x ∷ [])) l''
        (omega (arith, more, total-append es (x ∷ []))) in
    (
      q,
      rw (l.count, run) rest,
      subst (Layout q) (append_assoc es (x ∷ []) xs) lq,
      SameHeader-trans same same',
    )

remove_at_last : (m : ℕ) (es : List (List ℕ)) → length es ≡ suc m → remove_at m es ≡ take m es
remove_at_last m [] h = absurd (omega arith)
remove_at_last zero (x ∷ []) h = refl
remove_at_last zero (x ∷ y ∷ es) h = absurd (omega arith)
remove_at_last (suc m) (x ∷ es) h = ap (◌∷◌ x) (remove_at_last m es (omega arith))

take-take : (k m : ℕ) (es : List (List ℕ)) → k ≤ m → take k (take m es) ≡ take k es
take-take zero m es h = refl
take-take (suc k) zero es h = absurd (omega arith)
take-take (suc k) (suc m) [] h = refl
take-take (suc k) (suc m) (x ∷ es) h = ap (◌∷◌ x) (take-take k m es (omega arith))

-- Deleting from the last index down to `low` leaves the first `low` entries.
pub delete_down-Layout :
    (rounds low : ℕ) (p : Page) (es : List (List ℕ))
    → Layout p es
    → length es ≡ low + rounds
    → (q : Page) × (delete_down p low rounds ≡ some q) × Layout q (take low es) × SameHeader p q
unfolding delete_down
delete_down-Layout zero low p es l h =
    (p, refl, subst (Layout p) (sym (take_whole es low (omega arith))) l, SameHeader-refl p)
delete_down-Layout (suc rounds) low p es l h =
    let m = low + rounds in
    let (p', run, l', same, _) = delete_entry-Layout p es l m in
    let l'' : Layout p' (take m es) = subst (Layout p') (remove_at_last m es (omega arith)) l' in
    let (q, rest, lq, same') =
      delete_down-Layout rounds low p' (take m es) l'' (omega (arith, length-take m es)) in
    (
      q,
      rw run rest,
      subst (Layout q) (take-take low m es (omega arith)) lq,
      SameHeader-trans same same',
    )
