-- ===== src/Signet/Verify.antt =====
-- A signed block, as the service (src/services/signet-block-signing.service.ts) returns it, passes
-- the check that BIP 325 prescribes: the solution is taken out of the coinbase, and its script has
-- to spend the transaction made from the rest.
use hc_pool.Base.{
  ℕ, ◌<◌, ◌≡◌, refl, ap, sym, ◌∙◌, Bool, true, Option, some, List, [], ◌∷◌, ◌++◌, length,
  take_append, drop_append, length-append, arith,
}
use hc_pool.Base.Text.{Text, text_eq}
use hc_pool.Base.Hex.{Bytes}
use hc_pool.Template.{Transaction, Block}
use hc_pool.Signet.Encoding.{
  push, Library, >>=-eq-returned, returned_injective, returned, sighash_all, signet_header,
  serialize_signet_data, serialize_compact_size,
}
use hc_pool.Signet.{
  SigningService, new, check_challenge, sign_checked, sign_block, append_push_data, challenge_of,
  find_witness_commitment_output_index, with_push, build_signed_input_script, signet_solution,
}
use hc_pool.Signet.Copies.{Reparses, with_pushed, Signed, sign_checked-Signed}
use hc_pool.Signet.Keys.{HasKey, new-HasKey, Names, check_challenge-returned}
use hc_pool.Signet.Node.{
  script_of_solution, cleared_coinbase, solves, accepts, accepts-from, block_data, bip325_to_spend,
  bip325_to_sign,
}
use hc_pool.Signet.Data.{serialize_signet_data-eq}
use hc_pool.Signet.Sizes.{serialize_compact_size-read}
use hc_pool.Signet.Script.{
  Scripts, IsUnsigned, take_solution-push, append_at-script, set_script_at-append_at,
  commitment_index-append_at,
}

-- The rule of the script language that the challenge is: a signature of the key spends it.
pub record Interpreter (lib : Library) : Type 0 where
  pub verify_script : Bytes → Bytes → Transaction → Bool
  pub accepts_signature :
      (key : Bytes) (spend : Transaction)
      → lib.is_private key ≡ true
      → let digest = lib.hash_for_signature spend 0 (challenge_of lib key) sighash_all in
        verify_script
          (lib.compile (push (lib.encode_signature (lib.sign digest key) sighash_all) ∷ []))
          (challenge_of lib key)
          spend
        ≡ true

-- The commitment that the service finds in a block is the one that a node looks in, and has no
-- solution yet.
abbrev pub Fresh : Library → Block → Type 0
Fresh lib b =
    (coinbase : Transaction) (rest : List Transaction) (i : ℕ)
    → b.transactions ≡ coinbase ∷ rest
    → find_witness_commitment_output_index lib coinbase.outs ≡ some i
    → IsUnsigned lib coinbase.outs i

script_of_solution-eq :
    (size script : Bytes)
    → serialize_compact_size (length script) ≡ returned size
    → script_of_solution (size ++ (script ++ 0 ∷ [])) ≡ some script
unfolding script_of_solution text_eq
script_of_solution-eq size script h =
    rw
      (
        serialize_compact_size-read (length script) size (script ++ 0 ∷ []) h,
        drop_append script (0 ∷ []),
        take_append script (0 ∷ []),
      )
      refl

solution_parts :
    (lib : Library) (key challenge : Bytes) (b : Block) (solution : Bytes)
    → length b.prev_hash ≡ 32
    → length b.merkle_root ≡ 32
    → signet_solution lib key challenge b ≡ returned solution
    → (script_of_solution solution
        ≡ some (build_signed_input_script lib key challenge (block_data b)))
      × (0 < length solution)
unfolding signet_solution
solution_parts lib key challenge b solution p m h =
    let (signet_data, hd, h1) = >>=-eq-returned (serialize_signet_data b) _ h in
    let script = build_signed_input_script lib key challenge signet_data in
    let (size, hs, h2) = >>=-eq-returned (serialize_compact_size (length script)) _ h1 in
    let made : size ++ (script ++ 0 ∷ []) ≡ solution = returned_injective h2 in
    let same = serialize_signet_data-eq b signet_data p m hd in
    (
      ap script_of_solution (sym made)
          ∙ script_of_solution-eq size script hs
          ∙ ap (λ z. some (build_signed_input_script lib key challenge z)) same,
      rw (← made)
          (omega (arith, length-append size (script ++ 0 ∷ []), length-append script (0 ∷ []))),
    )

module _ (lib : Library) (laws : Scripts lib) where
  -- A reader finds the solution, and behind it the coinbase that was signed.
  cleared_coinbase-eq :
      (coinbase : Transaction) (i : ℕ) (solution : Bytes)
      → IsUnsigned lib coinbase.outs i
      → 0 < length solution
      → cleared_coinbase lib (with_push lib i (signet_header ++ solution) coinbase)
        ≡ some (with_push lib i signet_header coinbase, solution)
  unfolding cleared_coinbase
  cleared_coinbase-eq coinbase i solution u l =
      let bytes = signet_header ++ solution in
      let long : 1 < length bytes = omega arith in
      let again =
        commitment_index-append_at lib laws coinbase.outs i u.script bytes u.chunks u.last u.stands
          u.reads long in
      let stands = append_at-script lib laws i bytes u.script coinbase.outs u.stands in
      let reads : lib.decompile (append_push_data lib u.script bytes)
          ≡ some (u.chunks ++ push bytes ∷ []) =
        unfold append_push_data in laws.decompile-push u.script u.chunks bytes u.reads long in
      let taken = take_solution-push u.chunks solution u.clean l in
      let written : lib.compile (u.chunks ++ push signet_header ∷ [])
          ≡ append_push_data lib u.script signet_header =
        unfold append_push_data in
        laws.compile-append u.chunks (push signet_header ∷ [])
        ∙ ap (λ z. z ++ lib.compile (push signet_header ∷ [])) u.shortest in
      let placed =
        set_script_at-append_at lib laws i signet_header bytes u.script coinbase.outs u.stands in
      rw (again, stands, reads, taken, written, placed) refl

  -- In a block whose parts are as `signBlock` puts them together, the solution spends the challenge.
  pub Signed-solves :
      (interpreter : Interpreter lib) (key : Bytes) (b signed : Block)
      → lib.is_private key ≡ true
      → ((txs : List Transaction) → length (lib.calculate_merkle_root txs) ≡ 32)
      → length b.prev_hash ≡ 32
      → Fresh lib b
      → Signed lib key (challenge_of lib key) b signed
      → solves lib interpreter.verify_script (challenge_of lib key) signed ≡ some true
  unfolding solves block_data build_signed_input_script bip325_to_spend bip325_to_sign
  Signed-solves interpreter key b signed valid sizes p fresh parts =
      let headed = with_pushed lib parts.index signet_header parts.coinbase b in
      let unsigned = fresh parts.coinbase parts.rest parts.index parts.transactions parts.found in
      let (script, l) =
        solution_parts lib key (challenge_of lib key) headed parts.solution p
          (sizes headed.transactions) parts.solved in
      let cleared = cleared_coinbase-eq parts.coinbase parts.index parts.solution unsigned l in
      rw (parts.result, cleared, script) (ap some (interpreter.accepts_signature key _ valid))

-- A block that `signBlock` returns is put together from the checked parts.
pub sign_block-Signed :
    (lib : Library) (s : SigningService) (b signed : Block) (given : Option Text)
    (has : HasKey lib s)
    → s.enabled ≡ true
    → Reparses lib b.transactions
    → sign_block lib s b given ≡ returned signed
    → Names given (challenge_of lib has.key)
      × Signed lib has.key (challenge_of lib has.key) b signed
unfolding sign_block check_challenge
sign_block-Signed lib s b signed given has on h e =
    let e1 = rw on at e in
    let (keys, checked, e2) = >>=-eq-returned (check_challenge s given) _ e1 in
    let (held, public, named) = check_challenge-returned s given keys checked in
    let same_key : keys.0 ≡ has.key = cc (held, has.private_key) in
    let same : keys.1 ≡ challenge_of lib has.key = cc (public, has.challenge_script) in
    let e3 : sign_checked lib has.key (challenge_of lib has.key) b ≡ returned signed =
      rw (same_key, same) at e2 in
    (rw (← same) named, sign_checked-Signed lib has.key (challenge_of lib has.key) b signed h e3)

-- Whatever block an enabled service signs, a node whose challenge is the service's accepts the
-- result, the proof of work aside: the header has the merkle root of the transactions, and the
-- solution that the node takes out of the last commitment output spends the challenge by the two
-- transactions of BIP 325. Conditions: merkle roots and the parent's hash have 32 bytes; the block's
-- transactions are read back as written (`Reparses`); the commitment output that the service takes
-- is the one that a node looks in, is written the shortest way and has no solution yet (`Fresh`).
pub sign_block-accepted :
    (lib : Library) (laws : Scripts lib) (interpreter : Interpreter lib)
    (enable key given : Option Text) (s : SigningService) (b signed : Block)
    → ((txs : List Transaction) → length (lib.calculate_merkle_root txs) ≡ 32)
    → new lib enable key ≡ returned s
    → s.enabled ≡ true
    → Reparses lib b.transactions
    → length b.prev_hash ≡ 32
    → Fresh lib b
    → sign_block lib s b given ≡ returned signed
    → (challenge : Bytes) × Names given challenge
      × (s.challenge_script ≡ some challenge)
      × (accepts lib interpreter.verify_script challenge signed ≡ some true)
sign_block-accepted lib laws interpreter enable key given s b signed sizes made on h p fresh e =
    let has = new-HasKey lib enable key s made on in
    let (named, parts) = sign_block-Signed lib s b signed given has on h e in
    (
      challenge_of lib has.key,
      named,
      has.challenge_script,
      accepts-from lib interpreter.verify_script (challenge_of lib has.key) signed
          (ap (λ (z : Block). z.merkle_root) parts.result
            ∙ sym (ap (λ (z : Block). lib.calculate_merkle_root z.transactions) parts.result))
          (Signed-solves lib laws interpreter has.key b signed has.is_private sizes p fresh parts),
    )
