-- ===== src/Tests/Scripts.antt =====
-- Test data: scripts, transactions and signatures that are easy to read back, in place of those of
-- bitcoinjs-lib and tiny-secp256k1.
use mathlib.Core.List.{append_assoc, append-nil}
use hc_pool.Base.{
  ℕ, zero, suc, ◌+◌, ◌≡◌, refl, ap, sym, ◌∙◌, Bool, false, Option, none, some, List, [], ◌∷◌, ◌++◌,
  length, take, drop, replicate, if◌then◌else◌, leb, length-take, length-append, arith,
}
use hc_pool.Base.Text.{text_eq, text_eq_refl}
use hc_pool.Base.Hex.{Bytes}
use hc_pool.Template.{TxIn, TxOut, Transaction}
use hc_pool.Signet.Encoding.{Chunk, opcode, push, Library, sighash_all, op_checksig}
use hc_pool.Signet.Script.{Scripts}
use hc_pool.Signet.Verify.{Interpreter}
use hc_pool.Signet.Errors.{ShortSignatures}

-- A chunk is a mark, 0 or 1, and its bytes, each raised by 2.
abbrev raise : Bytes → Bytes
raise [] = []
raise (b ∷ bs) = suc (suc b) ∷ raise bs

abbrev code_of : Chunk → Bytes
code_of (opcode n) = 1 ∷ suc (suc n) ∷ []
code_of (push d) = 0 ∷ raise d

abbrev compile : List Chunk → Bytes
compile [] = []
compile (c ∷ cs) = code_of c ++ compile cs

-- What stands before the first mark, and the chunks behind it.
abbrev read_byte : ℕ → Option (Bytes × List Chunk) → Option (Bytes × List Chunk)
read_byte b none = none
read_byte zero (some (bytes, cs)) = some ([], push bytes ∷ cs)
read_byte (suc zero) (some (n ∷ [], cs)) = some ([], opcode n ∷ cs)
read_byte (suc zero) (some (_, cs)) = none
read_byte (suc (suc b)) (some (bytes, cs)) = some (b ∷ bytes, cs)

abbrev read : Bytes → Option (Bytes × List Chunk)
read [] = some ([], [])
read (b ∷ bs) = read_byte b (read bs)

abbrev whole : Option (Bytes × List Chunk) → Option (List Chunk)
whole (some ([], cs)) = some cs
whole _ = none

abbrev decompile : Bytes → Option (List Chunk)
decompile script = whole (read script)

compile-append : (xs ys : List Chunk) → compile (xs ++ ys) ≡ compile xs ++ compile ys
compile-append [] ys = refl
compile-append (x ∷ xs) ys =
    ap (◌++◌ (code_of x)) (compile-append xs ys)
    ∙ sym (append_assoc (code_of x) (compile xs) (compile ys))

-- Chunks behind those that are read.
abbrev extend : List Chunk → Option (Bytes × List Chunk) → Option (Bytes × List Chunk)
extend ds none = none
extend ds (some (bytes, cs)) = some (bytes, cs ++ ds)

read_byte-extend :
    (b : ℕ) (ds : List Chunk) (r : Option (Bytes × List Chunk))
    → read_byte b (extend ds r) ≡ extend ds (read_byte b r)
read_byte-extend zero ds none = refl
read_byte-extend (suc zero) ds none = refl
read_byte-extend (suc (suc b)) ds none = refl
read_byte-extend zero ds (some (bytes, cs)) = refl
read_byte-extend (suc zero) ds (some ([], cs)) = refl
read_byte-extend (suc zero) ds (some (n ∷ [], cs)) = refl
read_byte-extend (suc zero) ds (some (n ∷ m ∷ bytes, cs)) = refl
read_byte-extend (suc (suc b)) ds (some (bytes, cs)) = refl

read-append :
    (script rest : Bytes) (ds : List Chunk)
    → read rest ≡ some ([], ds)
    → read (script ++ rest) ≡ extend ds (read script)
read-append [] rest ds h = h
read-append (b ∷ script) rest ds h =
    ap (read_byte b) (read-append script rest ds h) ∙ read_byte-extend b ds (read script)

read-raise : (bytes : Bytes) → read (raise bytes) ≡ some (bytes, [])
read-raise [] = refl
read-raise (b ∷ bytes) = ap (read_byte (suc (suc b))) (read-raise bytes)

read-code_of : (c : Chunk) → read (code_of c) ≡ some ([], c ∷ [])
read-code_of (opcode n) = refl
read-code_of (push d) = ap (read_byte 0) (read-raise d)

read-compile : (cs : List Chunk) → read (compile cs) ≡ some ([], cs)
read-compile [] = refl
read-compile (c ∷ cs) =
    read-append (code_of c) (compile cs) cs (read-compile cs) ∙ ap (extend cs) (read-code_of c)

whole-extend :
    (ds : List Chunk) (cs : List Chunk) (r : Option (Bytes × List Chunk))
    → whole r ≡ some cs
    → whole (extend ds r) ≡ some (cs ++ ds)
whole-extend ds cs none h = cc
whole-extend ds cs (some ([], es)) h = cc
whole-extend ds cs (some (b ∷ bytes, es)) h = cc

-- A transaction with the number of its inputs and of its outputs in front, and each script and
-- each list of witnesses behind its length.
abbrev with_length : Bytes → Bytes
with_length bytes = length bytes ∷ bytes

abbrev serialize_witness : List Bytes → Bytes
serialize_witness [] = []
serialize_witness (item ∷ items) = with_length item ++ serialize_witness items

abbrev serialize_ins : List TxIn → Bytes
serialize_ins [] = []
serialize_ins (i ∷ ins) =
    i.index ∷ i.sequence ∷ with_length i.hash
    ++ (with_length i.script ++ (with_length (serialize_witness i.witness) ++ serialize_ins ins))

abbrev serialize_outs : List TxOut → Bytes
serialize_outs [] = []
serialize_outs (o ∷ outs) = o.value ∷ (with_length o.script ++ serialize_outs outs)

abbrev serialize : Transaction → Bytes
serialize tx =
    tx.version
    ∷ tx.locktime
    ∷ length tx.ins
    ∷ length tx.outs
    ∷ (serialize_ins tx.ins ++ serialize_outs tx.outs)

-- The part with a length in front, and what stands behind it.
abbrev split : Bytes → Bytes × Bytes
split [] = ([], [])
split (n ∷ bytes) = (take n bytes, drop n bytes)

abbrev parse_witness : ℕ → Bytes → List Bytes
parse_witness zero bytes = []
parse_witness (suc k) [] = []
parse_witness (suc k) (n ∷ bytes) = take n bytes ∷ parse_witness k (drop n bytes)

abbrev parse_ins : ℕ → Bytes → List TxIn × Bytes
parse_ins zero bytes = ([], bytes)
parse_ins (suc k) (index ∷ sequence ∷ bytes) =
    let (hash, b1) = split bytes in
    let (script, b2) = split b1 in
    let (witness, b3) = split b2 in
    let (ins, rest) = parse_ins k b3 in
    (
      record {
        hash = hash;
        index = index;
        script = script;
        sequence = sequence;
        witness = parse_witness (length witness) witness;
      }
          ∷ ins,
      rest,
    )
parse_ins (suc k) bytes = ([], bytes)

abbrev parse_outs : ℕ → Bytes → List TxOut
parse_outs zero bytes = []
parse_outs (suc k) [] = []
parse_outs (suc k) (value ∷ bytes) =
    let (script, rest) = split bytes in
    record { script = script; value = value } ∷ parse_outs k rest

abbrev parse_transaction : Bytes → Option Transaction
parse_transaction (version ∷ locktime ∷ n ∷ m ∷ bytes) =
    let (ins, rest) = parse_ins n bytes in
    some (record { version = version; locktime = locktime; ins = ins; outs = parse_outs m rest })
parse_transaction _ = none

-- None on bytes that are not those of the transaction that is read.
abbrev parse : Bytes → Option Transaction
parse bytes = elim (parse_transaction bytes) [
  | none ↦ none
  | some tx ↦ if text_eq (serialize tx) bytes then some tx else none
]

-- A hash of a transaction, and the root of a block: that of its coinbase.
abbrev pub hash_of : Transaction → Bytes
hash_of tx = length (serialize tx) ∷ replicate 31 0

abbrev root_of : List Transaction → Bytes
root_of [] = replicate 32 0
root_of (tx ∷ txs) = hash_of tx

pub root_of-length : (txs : List Transaction) → length (root_of txs) ≡ 32
root_of-length [] = refl
root_of-length (tx ∷ txs) = refl

abbrev pub demo_library : Library
demo_library = record {
  compile = compile;
  decompile = decompile;
  to_buffer = serialize;
  from_buffer = parse;
  get_hash = serialize;
  calculate_merkle_root = root_of;
  hash_for_signature = λ tx i script kind. serialize tx ++ script;
  encode_signature = λ signature kind. take 100 signature ++ kind ∷ [];
  is_private = λ key. leb 1 (length key);
  point_from_scalar = λ key. 2 ∷ key;
  sign = λ digest key. key ++ digest;
}

pub demo_laws : Scripts demo_library
demo_laws = record {
  compile-append = compile-append;
  decompile-push = λ script cs d h l.
      ap whole
        (read-append script (compile (push d ∷ [])) (push d ∷ []) (read-compile (push d ∷ [])))
      ∙ whole-extend (push d ∷ []) cs (read script) h;
}

-- The interpreter knows a challenge of one key, and compares the signature with that key's.
abbrev is_spent : Bytes → Option (List Chunk) → Bytes → Transaction → Bool
is_spent script (some (push (two ∷ key) ∷ opcode n ∷ [])) challenge spend =
    let digest = demo_library.hash_for_signature spend 0 challenge sighash_all in
    let signature = demo_library.encode_signature (demo_library.sign digest key) sighash_all in
    text_eq script (compile (push signature ∷ []))
is_spent script _ challenge spend = false

pub demo_interpreter : Interpreter demo_library
demo_interpreter = record {
  verify_script = λ script challenge spend. is_spent script (decompile challenge) challenge spend;
  accepts_signature = λ key spend valid.
      rw (read-compile (push (2 ∷ key) ∷ opcode op_checksig ∷ [])) (text_eq_refl _);
}

length-raise : (bytes : Bytes) → length (raise bytes) ≡ length bytes
length-raise [] = refl
length-raise (b ∷ bytes) = omega (arith, length-raise bytes)

length-compile : (d : Bytes) → length (compile (push d ∷ [])) ≡ length d + 1
length-compile d = rw (append-nil (raise d)) (omega (arith, length-raise d))

pub demo_short : ShortSignatures demo_library
demo_short digest key =
    let signature = take 100 (key ++ digest) ++ 1 ∷ [] in
    omega (
      arith,
      length-compile signature,
      length-append (take 100 (key ++ digest)) (1 ∷ []),
      length-take 100 (key ++ digest),
    )
