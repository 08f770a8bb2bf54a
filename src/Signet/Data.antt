-- ===== src/Signet/Data.antt =====
-- The 72 bytes that a solution signs (`serializeSignetData` of
-- src/services/signet-block-signing.service.ts).
use mathlib.Core.List.{append_assoc, append-nil}
use hc_pool.Base.{
  ℕ, suc, ◌+◌, ◌≡◌, refl, ap, sym, ◌∙◌, [], ◌∷◌, ◌++◌, length, take, drop, replicate, take_append,
  length-append, arith,
}
use hc_pool.Base.Hex.{Bytes, ℤ, pos, negsuc, to_u32}
use hc_pool.Template.{Block}
use hc_pool.Job.{set_at}
use hc_pool.Signet.Node.{block_data}
use hc_pool.Signet.Encoding.{
  >>=-eq-returned, returned_injective, returned, le_bytes, int32_le, uint32_le,
  serialize_signet_data,
}

take_at : (off : ℕ) (xs ys : Bytes) → length xs ≡ off → take off (xs ++ ys) ≡ xs
take_at off xs ys e = rw (← e) (take_append xs ys)

drop_at : (off k : ℕ) (xs ys : Bytes) → length xs ≡ off → drop (off + k) (xs ++ ys) ≡ drop k ys
drop_at off k [] ys e = ap (λ n. drop n ys) (omega (arith, e))
drop_at off k (x ∷ xs) ys e =
    let next : off + k ≡ suc (length xs + k) = omega (arith, e) in
    rw next (drop_at (length xs) k xs ys refl)

-- A copy that starts where the filled part of the buffer ends.
fill :
    (off k : ℕ) (xs bs ys : Bytes)
    → length xs ≡ off
    → length bs ≡ k
    → set_at off bs (xs ++ ys) ≡ (xs ++ bs) ++ drop k ys
fill off k xs bs ys e l =
    ap (λ z. z ++ (bs ++ drop (off + length bs) (xs ++ ys))) (take_at off xs ys e)
    ∙ ap (λ z. xs ++ (bs ++ z)) (drop_at off (length bs) xs ys e)
    ∙ ap (λ n. xs ++ (bs ++ drop n ys)) l
    ∙ sym (append_assoc xs bs (drop k ys))

length-le_bytes : (n : ℕ) → length (le_bytes 4 n) ≡ 4
unfolding le_bytes
length-le_bytes n = refl

int32_le-eq : (z : ℤ) (bs : Bytes) → int32_le z ≡ returned bs → bs ≡ le_bytes 4 (to_u32 z)
unfolding int32_le
int32_le-eq (pos n) bs h = ground arith
int32_le-eq (negsuc n) bs h = ground arith

uint32_le-eq : (z : ℤ) (bs : Bytes) → uint32_le z ≡ returned bs → bs ≡ le_bytes 4 (to_u32 z)
unfolding uint32_le
uint32_le-eq (pos n) bs h = ground arith
uint32_le-eq (negsuc n) bs h = cc

-- The four copies fill the buffer.
filled :
    (version prev root time : Bytes)
    → length version ≡ 4
    → length prev ≡ 32
    → length root ≡ 32
    → length time ≡ 4
    → set_at 68 time (set_at 36 root (set_at 4 prev (set_at 0 version (replicate 72 0))))
      ≡ version ++ (prev ++ (root ++ time))
filled version prev root time v p r t =
    let zeros = λ (n : ℕ). replicate {A = ℕ} n 0 in
    let two : length (version ++ prev) ≡ 36 = omega (arith, length-append version prev) in
    let three : length ((version ++ prev) ++ root) ≡ 68 =
      omega (arith, two, length-append (version ++ prev) root) in
    ap (λ z. set_at 68 time (set_at 36 root (set_at 4 prev z)))
      (fill 0 4 [] version (zeros 72) refl v)
    ∙ ap (λ z. set_at 68 time (set_at 36 root z)) (fill 4 32 version prev (zeros 68) v p)
    ∙ ap (set_at 68 time) (fill 36 32 (version ++ prev) root (zeros 36) two r)
    ∙ fill 68 4 ((version ++ prev) ++ root) time (zeros 4) three t
    ∙ append-nil (((version ++ prev) ++ root) ++ time)
    ∙ append_assoc (version ++ prev) root time
    ∙ append_assoc version prev (root ++ time)

pub serialize_signet_data-eq :
    (b : Block) (signet_data : Bytes)
    → length b.prev_hash ≡ 32
    → length b.merkle_root ≡ 32
    → serialize_signet_data b ≡ returned signet_data
    → signet_data ≡ block_data b
unfolding serialize_signet_data block_data le_bytes
serialize_signet_data-eq b signet_data p m h =
    let (version, hv, h1) = >>=-eq-returned (int32_le b.version) _ h in
    let (time, ht, h2) = >>=-eq-returned (uint32_le b.timestamp) _ h1 in
    let ev = int32_le-eq b.version version hv in
    let et = uint32_le-eq b.timestamp time ht in
    let lv : length version ≡ 4 = ap length ev ∙ length-le_bytes (to_u32 b.version) in
    let lt : length time ≡ 4 = ap length et ∙ length-le_bytes (to_u32 b.timestamp) in
    let layout = filled version b.prev_hash b.merkle_root time lv p m lt in
    returned_injective (sym h2)
    ∙ layout
    ∙ ap (λ z. z ++ (b.prev_hash ++ (b.merkle_root ++ time))) ev
    ∙ ap (λ z. le_bytes 4 (to_u32 b.version) ++ (b.prev_hash ++ (b.merkle_root ++ z))) et
