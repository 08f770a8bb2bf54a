-- ===== src/Signet/Copies.antt =====
-- The copies of blocks and transactions in `signBlock`
-- (src/services/signet-block-signing.service.ts): what a returned block consists of.
use mathlib.Core.Path.{fun_ext}
use mathlib.Core.List.{tail}
use hc_pool.Base.{ℕ, ◌≡◌, refl, ap, sym, subst, Option, none, some, List, [], ◌∷◌, ◌++◌}
use hc_pool.Base.Hex.{Bytes}
use hc_pool.Template.{Transaction, Block}
use hc_pool.Signet.Encoding.{
  Library, Failure, returned, ◌>>=◌, >>=-eq-returned, returned_injective, or_throw, no_coinbase,
  no_commitment, signet_header,
}
use hc_pool.Signet.{
  find_witness_commitment_output_index, with_push, reparse_all, clone_block, with_coinbase,
  first_transaction, signet_solution, sign_coinbase, sign_checked,
}

-- Reading back what was written gives each of the transactions.
abbrev pub Reparses : Library → List Transaction → Type 0
Reparses lib [] = Unit {0}
Reparses lib (tx ∷ txs) = (lib.from_buffer (lib.to_buffer tx) ≡ some tx) × Reparses lib txs

pub or_throw-eq-returned :
    {A : Type 0} (o : Option A) (e : Failure) {a : A} → or_throw o e ≡ returned a → o ≡ some a
or_throw-eq-returned none e h = cc
or_throw-eq-returned (some b) e h = cc

first_transaction-eq :
    (b : Block) {tx : Transaction}
    → first_transaction b ≡ some tx
    → (rest : List Transaction) × (b.transactions ≡ tx ∷ rest)
first_transaction-eq b h = split b.transactions h
  where
    split :
        (txs : List Transaction) {tx : Transaction}
        → (elim txs as (λ x. Option Transaction) [ [] ↦ none | t ∷ ts ↦ some t ]) ≡ some tx
        → (rest : List Transaction) × (txs ≡ tx ∷ rest)
    split [] h = cc
    split (t ∷ ts) h = (ts, cc)

module _ (lib : Library) where
  abbrev pub with_transactions : List Transaction → Block → Block
  with_transactions txs b = record b {
    transactions = txs;
    merkle_root = lib.calculate_merkle_root txs;
  }

  -- The block with a push behind the script of the commitment.
  abbrev pub with_pushed : ℕ → Bytes → Transaction → Block → Block
  with_pushed i bytes coinbase b =
      with_transactions (with_push lib i bytes coinbase ∷ tail b.transactions) b

  reparse_all-eq : (txs : List Transaction) → Reparses lib txs → reparse_all lib txs ≡ returned txs
  unfolding reparse_all
  reparse_all-eq [] h = refl
  reparse_all-eq (tx ∷ txs) (one, h) = rw (one, reparse_all-eq txs h) refl

  pub clone_block-eq : (b : Block) → Reparses lib b.transactions → clone_block lib b ≡ returned b
  unfolding clone_block
  clone_block-eq b h = rw (reparse_all-eq b.transactions h) refl

  with_coinbase-eq :
      (coinbase : Transaction) (b : Block)
      → Reparses lib b.transactions
      → with_coinbase lib coinbase b
        ≡ returned (with_transactions (coinbase ∷ tail b.transactions) b)
  unfolding with_coinbase
  with_coinbase-eq coinbase b h = rw (clone_block-eq b h) refl

  pub sign_coinbase-eq :
      (key challenge : Bytes) (b : Block) (coinbase : Transaction) (i : ℕ)
      → Reparses lib b.transactions
      → lib.from_buffer (lib.to_buffer coinbase) ≡ some coinbase
      → sign_coinbase lib key challenge b coinbase i ≡ (
          signet_solution lib key challenge (with_pushed i signet_header coinbase b) >>= λ solution.
          returned (with_pushed i (signet_header ++ solution) coinbase b))
  unfolding sign_coinbase
  sign_coinbase-eq key challenge b coinbase i h one =
      rw (one, with_coinbase-eq (with_push lib i signet_header coinbase) b h)
        (ap (λ k. signet_solution lib key challenge (with_pushed i signet_header coinbase b) >>= k)
          (fun_ext (λ solution.
            with_coinbase-eq (with_push lib i (signet_header ++ solution) coinbase) b h)))

  -- What the parts of a block are that `signBlock` signs.
  pub record Signed (key challenge : Bytes) (b signed : Block) : Type 0 where
    pub coinbase : Transaction
    pub rest : List Transaction
    pub index : ℕ
    pub solution : Bytes
    pub transactions : b.transactions ≡ coinbase ∷ rest
    pub found : find_witness_commitment_output_index lib coinbase.outs ≡ some index
    pub solved :
        signet_solution lib key challenge (with_pushed index signet_header coinbase b)
        ≡ returned solution
    pub result : signed ≡ with_pushed index (signet_header ++ solution) coinbase b

  pub sign_checked-Signed :
      (key challenge : Bytes) (b signed : Block)
      → Reparses lib b.transactions
      → sign_checked lib key challenge b ≡ returned signed
      → Signed key challenge b signed
  unfolding sign_checked
  sign_checked-Signed key challenge b signed h e =
      let e1 = rw (clone_block-eq b h) at e in
      let (coinbase, hc, e2) = >>=-eq-returned (or_throw (first_transaction b) no_coinbase) _ e1 in
      let (i, hi, e3) =
        >>=-eq-returned
          (or_throw (find_witness_commitment_output_index lib coinbase.outs) no_commitment) _ e2 in
      let (rest, same) =
        first_transaction-eq b (or_throw-eq-returned (first_transaction b) no_coinbase hc) in
      let parts = subst (Reparses lib) same h in
      let e4 = rw (sign_coinbase-eq key challenge b coinbase i h parts.0) at e3 in
      let (solution, solved, last) =
        >>=-eq-returned (signet_solution lib key challenge (with_pushed i signet_header coinbase b))
          _ e4 in
      record {
        coinbase = coinbase;
        rest = rest;
        index = i;
        solution = solution;
        transactions = same;
        found =
            or_throw-eq-returned (find_witness_commitment_output_index lib coinbase.outs)
              no_commitment hi;
        solved = solved;
        result = sym (returned_injective last);
      }
