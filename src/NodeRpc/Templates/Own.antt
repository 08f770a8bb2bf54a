-- ===== src/NodeRpc/Templates/Own.antt =====
-- Schedules of the processes in `getBlockTemplate` of src/services/bitcoin-rpc.service.ts, and what a
-- process returns that found no complete block.
use hc_pool.Base.{
  ℕ, ◌⊎◌, Option, List, [], ◌∷◌, if◌then◌else◌, ◌==◌, ==_iff, ◌≡◌, refl, sym, subst, inl, inr,
  Bool-cases, arith,
}
use hc_pool.Base.Text.{Text}
use hc_pool.NodeRpc.Templates.{
  RpcBlock, Repository, Phase, reading, locking, waiting, loading, saving, finished, failed, Answer,
  thrown, empty, template, Codec, get_block, lock, wait_for_block, load_block_template, step,
}

abbrev pub Answered : {Template : Type 0} → (Template → Type 0) → Answer Template → Type 0
Answered Good (template t) = Good t
Answered Good _ = Unit {0}

-- A step of one of the processes, with what the node answers if it is asked.
pub record Event (Template : Type 0) : Type 0 where
  pub process : ℕ
  pub answer : Answer Template

-- Past the first look at the table.
abbrev pub Holding : {Template : Type 0} → (Template → Type 0) → Phase Template → Type 0
Holding Good reading = ⊥
Holding Good (saving t) = Good t
Holding Good (finished t) = Good t
Holding Good _ = Unit {0}

abbrev pub set_phase :
    {Template : Type 0} → ℕ → Phase Template → (ℕ → Phase Template) → ℕ → Phase Template
set_phase i p phases j = if i == j then p else phases j

module _ {Template : Type 0} (repository : Repository) (codec : Codec Template)
    (instances : ℕ → Option Text) (block_height : ℕ) where
  open repository use {Store}

  -- The processes and the table, step by step.
  unfoldable pub run :
      List (Event Template) → (ℕ → Phase Template) → Store → (ℕ → Phase Template) × Store
  run [] phases store = (phases, store)
  run (e ∷ events) phases store =
      let (p, store') =
        step repository codec (instances e.process) block_height e.answer (phases e.process)
          store in
      run events (set_phase e.process p phases) store'

  -- The answers that one process gets.
  abbrev pub Own : ℕ → (Template → Type 0) → List (Event Template) → Type 0
  Own i Good [] = Unit {0}
  Own i Good (e ∷ events) = (i ≡ e.process → Answered Good e.answer) × Own i Good events

  wait_for_block-cases :
      (i : Option Text) (block : Option RpcBlock)
      → let p = wait_for_block repository codec i block_height block in
        (p ≡ waiting) ⊎ ((p ≡ failed) ⊎ (p ≡ loading))
  unfolding wait_for_block
  wait_for_block-cases i block = ground arith

  lock-cases :
      (i : Option Text) (store : Store)
      → let p = (lock repository codec i block_height store).0 in (p ≡ waiting) ⊎ (p ≡ loading)
  unfolding lock
  lock-cases i store = ground arith

  pub step-Holding :
      (Good : Template → Type 0) (i : Option Text) (answer : Answer Template) (p : Phase Template)
      (store : Store)
      → Answered Good answer
      → Holding Good p
      → Holding Good (step repository codec i block_height answer p store).0
  unfolding step load_block_template
  step-Holding Good i answer reading store a h = absurd h
  step-Holding Good i answer locking store a h = elim (lock-cases i store) [
    | inl w ↦ subst (Holding Good) (sym w) tt
    | inr l ↦ subst (Holding Good) (sym l) tt
  ]
  step-Holding Good i answer waiting store a h =
      elim (wait_for_block-cases i (get_block repository block_height store)) [
        | inl w ↦ subst (Holding Good) (sym w) tt
        | inr (inl f) ↦ subst (Holding Good) (sym f) tt
        | inr (inr l) ↦ subst (Holding Good) (sym l) tt
      ]
  step-Holding Good i thrown loading store a h = tt
  step-Holding Good i empty loading store a h = tt
  step-Holding Good i (template t) loading store a h = a
  step-Holding Good i answer (saving t) store a h = h
  step-Holding Good i answer (finished t) store a h = h
  step-Holding Good i answer failed store a h = tt

  -- A process that found no complete block for the height returns what the node answered to
  -- itself: whatever other processes store meanwhile, and whether it took the lock or waited for
  -- the block of another, what is returned is one of its own answers. (`Good` stands for any
  -- property that these answers share.)
  pub run-Holding :
      (Good : Template → Type 0) (i : ℕ) (events : List (Event Template))
      (phases : ℕ → Phase Template) (store : Store)
      → Own i Good events
      → Holding Good (phases i)
      → Holding Good ((run events phases store).0 i)
  unfolding run
  run-Holding Good i [] phases store own h = h
  run-Holding Good i (e ∷ events) phases store own h =
      let moved =
        (step repository codec (instances e.process) block_height e.answer (phases e.process)
          store).0 in
      run-Holding Good i events _ _ own.1 (elim (Bool-cases (e.process == i)) [
        | inl mine ↦
            let same = (==_iff e.process i).0 mine in
            let chosen : set_phase e.process moved phases i ≡ moved = rw mine refl in
            subst (Holding Good) (sym chosen) (
              step-Holding Good (instances e.process) e.answer (phases e.process) store
                (own.0 (sym same)) (subst (λ j. Holding Good (phases j)) (sym same) h))
        | inr other ↦
            let kept : set_phase e.process moved phases i ≡ phases i = rw other refl in
            subst (Holding Good) (sym kept) h
      ])
