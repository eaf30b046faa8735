-- ===== src/Experiment/SyncCost/Count.antt =====
-- How often a run of internal/experiment/synccost.go calls Sync.
use index_lab.Errors.{ok, err}
use index_lab.Experiment.Run.{Run, return_ok, ◌>>=◌, call, or_panic, sync_tree}
use index_lab.Experiment.SyncCost.{
  Strategy, run_sync_scenario, insert_and_sync, sync_if_due, sync_when, is_due,
}
use index_lab.Prelude.{
  ℕ, suc, ◌+◌, ◌*◌, ◌/◌, ◌%◌, ◌^◌, ◌<◌, ◌≡◌, ◌⊎◌, inl, inr, refl, sym, ap, ◌∙◌, Bool, true, false,
  none, some, List, [], ◌∷◌, length, ◌==◌, if◌then◌else◌, arith,
}
use index_lab.Prelude.Int.{ℤ, pos}
use index_lab.Storage.{File}
use index_lab.Tree.{Tree, open_tree}
use index_lab.Tree.Insert.{insert}
use mathlib.Core.Path.{subst}
use native.Mathlib.Decide.{dec_lt}
use native.Mathlib.Nat.{
  mod-lt, div-add-mod, mul-add-div, mul-add-mod_self_left, div-eq_of_lt, mod-eq_of_lt, div_self,
  mod_self,
}

-- From a number to the next, the quotient grows just where the remainder is 0.
Div-step : ℕ → ℕ → Type 0
Div-step k i =
    (((i + 1) % k ≡ 0) × ((i + 1) / k ≡ i / k + 1)) ⊎ ((0 < (i + 1) % k) × ((i + 1) / k ≡ i / k))

div_step : (k i : ℕ) → 0 < k → Div-step k i
unfolding Div-step
div_step k i h =
    let whole = div-add-mod i k in
    let small = mod-lt i h in
    let next : i + 1 ≡ k * (i / k) + (i % k + 1) = omega (arith, whole) in
    elim (dec_lt (i % k + 1) k) [
      | yes l ↦ inr (
        subst (λ m. 0 < m)
            (sym
              (ap (λ m. m % k) next ∙ mul-add-mod_self_left k (i / k) (i % k + 1) ∙ mod-eq_of_lt l))
            (omega arith),
        ap (λ m. m / k) next
            ∙ mul-add-div h (i / k) (i % k + 1)
            ∙ ap (λ m. i / k + m) (div-eq_of_lt l)
            ∙ omega arith,
      )
      | no l ↦
          let full : i % k + 1 ≡ k = omega (arith, l, small) in
          inl (
            ap (λ m. m % k) next
                ∙ mul-add-mod_self_left k (i / k) (i % k + 1)
                ∙ ap (λ m. m % k) full
                ∙ mod_self k,
            ap (λ m. m / k) next
                ∙ mul-add-div h (i / k) (i % k + 1)
                ∙ ap (λ m. i / k + m / k) full
                ∙ ap (λ m. i / k + m) (div_self h),
          )
    ]

assoc {ℓ κ μ} :
    {A : Type ℓ} {B : Type κ} {C : Type μ} (m : Run A) (f : A → Run B) (g : B → Run C)
    → (m >>= f) >>= g ≡ m >>= λ a. f a >>= g
assoc none f g = refl
assoc (some (err x)) f g = refl
assoc (some (ok a)) f g = refl

after {ℓ κ} :
    {A : Type ℓ} {B : Type κ} (m : Run A) (f g : A → Run B)
    → ((a : A) → f a ≡ g a)
    → m >>= f ≡ m >>= g
after m f g same = ap (λ h. m >>= h) (λ j a. same a j)

abbrev sync_on : Bool → Tree → Run Tree
sync_on true tree = do (tree, _) ← call (sync_tree [] tree); return_ok tree
sync_on false tree = return_ok tree

-- The loop without its counter: every `k`-th insertion is synced.
unfoldable pub insert_synced : ℕ → List ℤ → ℕ → ℕ → Tree → Run Tree
insert_synced fuel [] i k tree = return_ok tree
insert_synced fuel (key ∷ keys) i k tree = do
  (tree, _) ← call (insert fuel key key tree)
  tree ← sync_on ((i + 1) % k == 0) tree
  insert_synced fuel keys (i + 1) k tree

-- The tree, with the quotient as the counter.
abbrev counted : ℕ → Run Tree → Run (Tree × ℕ)
counted q m = m >>= λ tree. return_ok (tree, q % 2 ^ 64)

-- One step of the counter, by the answer of the test.
sync_by :
    (due : Bool) (i k : ℕ) (tree : Tree)
    → is_due i (pos k) ≡ some due
    → sync_if_due i (pos k) (tree, i / k % 2 ^ 64) ≡ (
        sync_on due tree >>= λ t.
        return_ok (t, if due then (i / k % 2 ^ 64 + 1) % 2 ^ 64 else i / k % 2 ^ 64))
unfolding sync_if_due sync_when
sync_by true i k tree e =
    ap (λ m. or_panic m >>= λ due. sync_when due (tree, i / k % 2 ^ 64)) e
    ∙ sym (assoc (call (sync_tree [] tree)) _ _)
sync_by false i k tree e = ap (λ m. or_panic m >>= λ due. sync_when due (tree, i / k % 2 ^ 64)) e

sync_if_due_lem :
    (k i : ℕ) (tree : Tree)
    → sync_if_due i (pos (suc k)) (tree, i / suc k % 2 ^ 64)
      ≡ counted ((i + 1) / suc k) (sync_on ((i + 1) % suc k == 0) tree)
unfolding Div-step
sync_if_due_lem k i tree =
    sync_by ((i + 1) % suc k == 0) i (suc k) tree (ground arith)
    ∙ ap (λ m. sync_on ((i + 1) % suc k == 0) tree >>= λ t. return_ok (t, m))
        (elim (div_step (suc k) i (omega arith)) [
          | inl (rest, quotient) ↦ ground (arith, rest, quotient)
          | inr (rest, quotient) ↦ ground (arith, rest, quotient)
        ])

insert_and_sync_lem :
    (fuel k : ℕ) (keys : List ℤ) (i : ℕ) (tree : Tree)
    → insert_and_sync fuel keys i (pos (suc k)) (tree, i / suc k % 2 ^ 64)
      ≡ counted ((i + length keys) / suc k) (insert_synced fuel keys i (suc k) tree)
unfolding insert_and_sync insert_synced
insert_and_sync_lem fuel k [] i tree = ap (λ m. return_ok (tree, m / suc k % 2 ^ 64)) (omega arith)
insert_and_sync_lem fuel k (key ∷ keys) i tree =
    after (call (insert fuel key key tree)) _ _ (λ (t, _).
      ap (λ m. m >>= λ state. insert_and_sync fuel keys (i + 1) (pos (suc k)) state)
        (sync_if_due_lem k i t)
      ∙ assoc (sync_on ((i + 1) % suc k == 0) t) _ _
      ∙ after (sync_on ((i + 1) % suc k == 0) t) _ _ (λ t'.
        insert_and_sync_lem fuel k keys (i + 1) t'
        ∙ ap (λ m. counted (m / suc k) (insert_synced fuel keys (i + 1) (suc k) t')) (omega arith))
      ∙ sym (assoc (sync_on ((i + 1) % suc k == 0) t) _ _))
    ∙ sym (assoc (call (insert fuel key key tree)) _ _)

module _ (fuel : ℕ) (f : File) (label : Strategy) (keys : List ℤ) (k : ℕ) where
  -- `runSyncScenario` with an interval of 1 or more opens the tree, inserts the keys in order with
  -- a Sync after each insertion whose number the interval divides, and syncs once more at the end;
  -- it stops at the first panic or error. A run that does not stop early reports as its number of
  -- Sync calls the number of keys divided by the interval, plus 1, modulo 2^64.
  pub run_sync_scenario-insert_synced : run_sync_scenario fuel f label keys (pos (suc k)) ≡ (do
    tree ← open_tree f none 16 false
    tree ← insert_synced fuel keys 0 (suc k) tree
    (_, _) ← call (sync_tree [] tree)
    return_ok (record {
      strategy = label;
      insert_count = length keys;
      sync_calls = (length keys / suc k + 1) % 2 ^ 64;
    }))
  unfolding run_sync_scenario
  run_sync_scenario-insert_synced =
      let from_zero : 0 + length keys ≡ length keys = omega arith in
      after (open_tree f none 16 false) _ _ (λ tree.
        ap
          (λ m. m >>= λ (t, n). call (sync_tree [] t) >>= λ _. return_ok (record {
            strategy = label;
            insert_count = length keys;
            sync_calls = (n + 1) % 2 ^ 64;
          }))
          (ap (λ c. insert_and_sync fuel keys 0 (pos (suc k)) (tree, c)) (omega arith)
            ∙ insert_and_sync_lem fuel k keys 0 tree)
        ∙ assoc (insert_synced fuel keys 0 (suc k) tree) _ _
        ∙ after (insert_synced fuel keys 0 (suc k) tree) _ _ (λ t.
          ap
            (λ c. call (sync_tree [] t) >>= λ _.
              return_ok (record { strategy = label; insert_count = length keys; sync_calls = c }))
            (omega (arith, ap (λ m. m / suc k) from_zero))))
