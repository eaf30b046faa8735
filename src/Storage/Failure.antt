-- ===== src/Storage/Failure.antt =====
-- A call of the page manager on a page of the file errs only if a coming system call fails.
use index_lab.Errors.{Error, err}
use index_lab.Page.{Page, PageId}
use index_lab.Prelude.{ℕ, ◌≡◌, ◌⊎◌, inl, inr, refl, some, List, [], ◌∷◌, arith}
use index_lab.Storage.{
  Outcome, done, failed, first_outcome, later_outcomes, PageManager, read_page, write_page,
}
use mathlib.Core.Path.{subst}
use index_lab.Storage.ReadWrite.{IsAddressable, disk_byte, page_offset_lem}

-- One of the coming calls fails.
abbrev pub HasFailure : List Outcome → Type 0
HasFailure [] = ⊥
HasFailure (done ∷ os) = HasFailure os
HasFailure (failed n ∷ os) = Unit

abbrev pub Failing : PageManager → Type 0
Failing pm = HasFailure pm.file.outcomes

later-HasFailure : (os : List Outcome) → HasFailure (later_outcomes os) → HasFailure os
later-HasFailure [] h = h
later-HasFailure (done ∷ os) h = h
later-HasFailure (failed n ∷ os) h = tt

first-HasFailure : (os : List Outcome) (n : ℕ) → first_outcome os ≡ failed n → HasFailure os
first-HasFailure [] n h = cc
first-HasFailure (done ∷ os) n h = cc
first-HasFailure (failed m ∷ os) n h = tt

outcome-cases : (o : Outcome) → (o ≡ done) ⊎ ((n : ℕ) × (o ≡ failed n))
outcome-cases done = inl refl
outcome-cases (failed n) = inr (n, refl)

-- The outcomes that are left after one call or two, or none.
IsLeft : List Outcome → List Outcome → Type 0
IsLeft os left =
    (left ≡ os) ⊎ ((left ≡ later_outcomes os) ⊎ (left ≡ later_outcomes (later_outcomes os)))

left-HasFailure : (os left : List Outcome) → IsLeft os left → HasFailure left → HasFailure os
unfolding IsLeft
left-HasFailure os left (inl e) h = subst HasFailure e h
left-HasFailure os left (inr (inl e)) h = later-HasFailure os (subst HasFailure e h)
left-HasFailure os left (inr (inr e)) h =
    later-HasFailure os (later-HasFailure (later_outcomes os) (subst HasFailure e h))

module _ (pm : PageManager) where
  abbrev os : List Outcome
  os = pm.file.outcomes

  pub read_page-Failing : (id : PageId) → Failing (read_page pm id).0 → Failing pm
  unfolding read_page IsLeft
  read_page-Failing id = left-HasFailure os (read_page pm id).0.file.outcomes (ground arith)

  pub write_page-Failing : (pg : Page) → Failing (write_page pm pg).0 → Failing pm
  unfolding write_page IsLeft
  write_page-Failing pg = left-HasFailure os (write_page pm pg).0.file.outcomes (ground arith)

  -- A call that errs although neither of its two system calls fails.
  by_outcomes :
      (first_outcome os ≡ done → first_outcome (later_outcomes os) ≡ done → ⊥) → Failing pm
  by_outcomes wrong = elim (outcome-cases (first_outcome os)) [
    | inr (n, e) ↦ first-HasFailure os n e
    | inl e ↦ elim (outcome-cases (first_outcome (later_outcomes os))) [
      | inr (n, e') ↦ later-HasFailure os (first-HasFailure (later_outcomes os) n e')
      | inl e' ↦ absurd (wrong e e')
    ]
  ]

  pub read_page_err :
      (id : PageId) (b : ℕ) (x : Error)
      → IsAddressable id
      → disk_byte pm id 0 ≡ some b
      → (read_page pm id).1 ≡ err x
      → Failing pm
  unfolding read_page disk_byte
  read_page_err id b x place there e =
      by_outcomes (λ first second. ground (arith, page_offset_lem id place, first, second))

  pub write_page_err :
      (pg : Page) (x : Error) → IsAddressable pg.id → (write_page pm pg).1 ≡ err x → Failing pm
  unfolding write_page
  write_page_err pg x place e =
      by_outcomes (λ first second. ground (arith, page_offset_lem pg.id place, first, second))
