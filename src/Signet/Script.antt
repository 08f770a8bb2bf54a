-- ===== src/Signet/Script.antt =====
-- The commitment output that a signet solution is appended to, as the signing service
-- (src/services/signet-block-signing.service.ts) writes it and as a node reads it.
use hc_pool.Base.{
  ℕ, zero, suc, ◌<◌, ◌≡◌, refl, ap, sym, ◌∙◌, true, none, some, List, [], ◌∷◌, ◌++◌, length, arith,
}
use hc_pool.Base.Text.{text_eq_refl}
use hc_pool.Base.Hex.{Bytes}
use hc_pool.Template.{TxOut}
use hc_pool.Signet.Encoding.{Chunk, opcode, push, Library, signet_header}
use hc_pool.Signet.Node.{
  take_solution, has_commitment, script_at, set_script_at, get_witness_commitment_index,
}
use hc_pool.Signet.{append_push_data, append_at}

-- What the library documents of scripts: parts are written one after another, and a script that
-- can be read is still read with a push of at least two bytes behind it.
pub record Scripts (lib : Library) : Type 0 where
  pub compile-append :
      (xs ys : List Chunk) → lib.compile (xs ++ ys) ≡ lib.compile xs ++ lib.compile ys
  pub decompile-push :
      (script : Bytes) (cs : List Chunk) (d : Bytes)
      → lib.decompile script ≡ some cs
      → 1 < length d
      → lib.decompile (script ++ lib.compile (push d ∷ [])) ≡ some (cs ++ push d ∷ [])

pub take_solution-push :
    (cs : List Chunk) (solution : Bytes)
    → take_solution cs ≡ none
    → 0 < length solution
    → take_solution (cs ++ push (signet_header ++ solution) ∷ [])
      ≡ some (cs ++ push signet_header ∷ [], solution)
unfolding take_solution
take_solution-push [] solution h l = ground (arith, text_eq_refl signet_header)
take_solution-push (opcode n ∷ cs) solution h l = ground (arith, take_solution-push cs solution)
take_solution-push (push d ∷ cs) solution h l = ground (arith, take_solution-push cs solution)

-- A push behind a commitment leaves it one.
has_commitment-push :
    (cs : List Chunk) (e : Bytes)
    → has_commitment (some cs) ≡ true
    → has_commitment (some (cs ++ push e ∷ [])) ≡ true
unfolding has_commitment
has_commitment-push [] e h = cc
has_commitment-push (push d ∷ cs) e h = cc
has_commitment-push (opcode n ∷ []) e h = cc
has_commitment-push (opcode n ∷ opcode m ∷ cs) e h = cc
has_commitment-push (opcode n ∷ push d ∷ cs) e h = h

-- An output that the solution can go to: it is the one in which a node looks for the solution, its
-- script can be read, is written the shortest way, and has no solution yet.
pub record IsUnsigned (lib : Library) (outs : List TxOut) (i : ℕ) : Type 0 where
  pub script : Bytes
  pub chunks : List Chunk
  pub last : get_witness_commitment_index lib outs ≡ some i
  pub stands : script_at i outs ≡ some script
  pub reads : lib.decompile script ≡ some chunks
  pub shortest : lib.compile chunks ≡ script
  pub clean : take_solution chunks ≡ none

module _ (lib : Library) (laws : Scripts lib) where
  pub append_at-script :
      (i : ℕ) (bytes script : Bytes) (outs : List TxOut)
      → script_at i outs ≡ some script
      → script_at i (append_at lib i bytes outs) ≡ some (append_push_data lib script bytes)
  unfolding script_at append_at
  append_at-script i bytes script [] h = cc
  append_at-script zero bytes script (o ∷ os) h = cc
  append_at-script (suc i) bytes script (o ∷ os) h = append_at-script i bytes script os h

  pub set_script_at-append_at :
      (i : ℕ) (a b script : Bytes) (outs : List TxOut)
      → script_at i outs ≡ some script
      → set_script_at i (append_push_data lib script a) (append_at lib i b outs)
        ≡ append_at lib i a outs
  unfolding script_at set_script_at append_at
  set_script_at-append_at i a b script [] h = refl
  set_script_at-append_at zero a b script (o ∷ os) h = cc
  set_script_at-append_at (suc i) a b script (o ∷ os) h =
      ap (◌∷◌ o) (set_script_at-append_at i a b script os h)

  -- The test of an output still holds with a push behind its script.
  has_commitment-append :
      (script bytes : Bytes) (cs : List Chunk)
      → lib.decompile script ≡ some cs
      → 1 < length bytes
      → has_commitment (lib.decompile script) ≡ true
      → has_commitment (lib.decompile (append_push_data lib script bytes)) ≡ true
  unfolding append_push_data
  has_commitment-append script bytes cs d l h =
      rw (laws.decompile-push script cs bytes d l)
        (has_commitment-push cs bytes (ap has_commitment (sym d) ∙ h))

  first_is_last :
      (o : TxOut) (os : List TxOut)
      → get_witness_commitment_index lib (o ∷ os) ≡ some 0
      → (get_witness_commitment_index lib os ≡ none)
        × (has_commitment (lib.decompile o.script) ≡ true)
  unfolding get_witness_commitment_index
  first_is_last o os h = ground arith

  -- The solution goes to the output in which a node looks for it.
  pub commitment_index-append_at :
      (outs : List TxOut) (i : ℕ) (script bytes : Bytes) (cs : List Chunk)
      → get_witness_commitment_index lib outs ≡ some i
      → script_at i outs ≡ some script
      → lib.decompile script ≡ some cs
      → 1 < length bytes
      → get_witness_commitment_index lib (append_at lib i bytes outs) ≡ some i
  unfolding get_witness_commitment_index script_at append_at
  commitment_index-append_at [] i script bytes cs h s d l = cc
  commitment_index-append_at (o ∷ os) zero script bytes cs h s d l =
      let same : o.script ≡ script = cc in
      let read : lib.decompile o.script ≡ some cs = ap lib.decompile same ∙ d in
      let (none_behind, stands) = first_is_last o os h in
      rw (none_behind, has_commitment-append o.script bytes cs read l stands) refl
  commitment_index-append_at (o ∷ os) (suc i) script bytes cs h s d l =
      ground (arith, commitment_index-append_at os i script bytes cs)
