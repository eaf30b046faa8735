-- ===== src/Page/Shift.antt =====
-- The loop of `InsertEntry` that moves the slots from the insertion point on up by one.
use index_lab.Page.{Page, shift_slots, page_size}
use index_lab.Page.Slots.{
  slot_at, put_slot, get_slot_lem, set_slot_lem, slot_at-put_slot_self, put_slot_outside,
  slot_at_congr,
}
use index_lab.Prelude.{
  ℕ, zero, suc, ◌+◌, ◌*◌, ◌≤◌, ◌<◌, ◌≡◌, ◌⊎◌, inl, inr, refl, sym, ◌∙◌, some, arith, ap,
}
use native.Mathlib.Decide.{dec_lt}

-- The slots from `slot` up to `k` stand one place higher in `e` than in `d`; all else is unchanged.
pub record Shifted (slot k : ℕ) (d e : ℕ → ℕ) : Type 0 where
  pub moved : (j : ℕ) → slot ≤ j → j < k → slot_at e (suc j) ≡ slot_at d j
  pub kept : (i : ℕ) → (i < 25 + slot * 4) ⊎ (25 + k * 4 ≤ i) → e i ≡ d i

abbrev pub Small : (ℕ → ℕ) → ℕ → Type 0
Small d k = (j : ℕ) → j < k → ((slot_at d j).offset < 65536) × ((slot_at d j).length < 65536)

-- Two arrays that agree outside slot `i` have the same other slots.
slot_at_kept : (d : ℕ → ℕ) (i j : ℕ) → j < i → slot_at (put_slot d i (slot_at d j)) j ≡ slot_at d j
slot_at_kept d i j h =
    slot_at_congr (put_slot d i (slot_at d j)) d j
      (λ b p q. put_slot_outside d i (slot_at d j) b (inl (omega arith)))

module _ (slot k : ℕ) (d : ℕ → ℕ) where
  abbrev raised : ℕ → ℕ
  raised = put_slot d (suc k) (slot_at d k)

  raised_below : (j : ℕ) → j ≤ k → slot_at raised j ≡ slot_at d j
  raised_below j h =
      slot_at_congr raised d j
        (λ b p q. put_slot_outside d (suc k) (slot_at d k) b (inl (omega arith)))

  raised-Small : Small d (suc k) → Small raised k
  raised-Small small j h =
      let same = raised_below j (omega arith) in
      let (o, l) = small j (omega arith) in
      (omega (arith, ap (λ s. s.offset) same), omega (arith, ap (λ s. s.length) same))

  Shifted-suc :
      {e : ℕ → ℕ} → Small d (suc k) → slot ≤ k → Shifted slot k raised e → Shifted slot (suc k) d e
  Shifted-suc {e} small le s = record {
    moved = λ j p q. elim (dec_lt j k) [
      | yes h ↦ s.moved j p h ∙ raised_below j (omega arith)
      | no h ↦
          let at_k : j ≡ k = omega arith in
          slot_at_congr e raised (suc j) (λ b p q. s.kept b (inr (omega arith)))
          ∙ ap (λ i. slot_at raised (suc i)) at_k
          ∙ slot_at-put_slot_self d (suc k) (slot_at d k) (small k (omega arith)).0
              (small k (omega arith)).1
          ∙ ap (slot_at d) (sym at_k)
    ];
    kept = λ i h. s.kept i (omega arith) ∙ put_slot_outside d (suc k) (slot_at d k) i (omega arith);
  }

shift_slots_step :
    (k slot : ℕ) (p : Page)
    → 29 + k * 4 ≤ page_size
    → slot ≤ k
    → shift_slots (suc k) slot p ≡ shift_slots k slot (record p { bytes = raised slot k p.bytes })
unfolding shift_slots
shift_slots_step k slot p h le = ground (
  arith,
  get_slot_lem p k (omega arith),
  set_slot_lem p (suc k) (slot_at p.bytes k) (omega arith),
)

shift_slots_stop : (k slot : ℕ) (p : Page) → k ≤ slot → shift_slots k slot p ≡ some p
unfolding shift_slots
shift_slots_stop zero slot p h = refl
shift_slots_stop (suc k) slot p h = ground arith

pub shift_slots_lem :
    (k slot : ℕ) (p : Page)
    → 25 + k * 4 ≤ page_size
    → Small p.bytes k
    → (q : Page) × (shift_slots k slot p ≡ some q) × (q.id ≡ p.id) × Shifted slot k p.bytes q.bytes
shift_slots_lem zero slot p h small = (
  p,
  shift_slots_stop zero slot p (omega arith),
  refl,
  record { moved = λ j a b. absurd (omega arith); kept = λ i a. refl },
)
shift_slots_lem (suc k) slot p h small =
    let p' : Page = record p { bytes = raised slot k p.bytes } in
    let (q, run, id, s) =
      shift_slots_lem k slot p' (omega arith) (raised-Small slot k p.bytes small) in
    elim (dec_lt k slot) [
      | no le ↦ (
        q,
        shift_slots_step k slot p (omega arith) (omega arith) ∙ run,
        id,
        Shifted-suc slot k p.bytes small (omega arith) s,
      )
      | yes gt ↦ (
        p,
        shift_slots_stop (suc k) slot p (omega arith),
        refl,
        record { moved = λ j a b. absurd (omega arith); kept = λ i a. refl },
      )
    ]
