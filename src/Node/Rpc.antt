-- ===== src/Node/Rpc.antt =====
-- The RPC handlers of src/node.rs. Decoding of hex and of SCALE are parameters; a response is a
-- result, and what is sent on a channel is a list.
use rust_state_machine.Shared.{
  ℕ, ◌+◌, ◌%◌, ◌^◌, ◌≡◌, Option, some, none, List, [], ◌∷◌, ◌++◌, length, filter_by,
  filter_by-append, length-filter_by, arith, Result, ok, err, if◌then◌else◌, ◌==◌, IsU32, true,
  Bool-cases, inl, inr,
}
use rust_state_machine.Shared.Order.{Bytes, same_iff}
use rust_state_machine.Extrinsic.{AccountId32, account_ord}
use rust_state_machine.System
use rust_state_machine.Mempool.{Mempool}
use rust_state_machine.Runtime.{Runtime, Extrinsic}
use rust_state_machine.Node.Production.Batch.{is_from}
use rust_state_machine.Node.Production.Blocks.{Consecutive}

-- The responses with status 400.
pub data BadRequest : Type 0 where
  scale_decode_failed : BadRequest
  invalid_hex : BadRequest
  wrong_length : BadRequest

-- What the handlers have sent on `tx_pub` (the bytes to gossip) and on `tx_ext`.
pub record Channels : Type 0 where
  pub published : List Bytes
  pub received : List Extrinsic

unfoldable pub submit_handler :
    (Bytes → Option Extrinsic) → Channels → Bytes → Channels × Result (Unit {0}) BadRequest
submit_handler decode c raw = elim (decode raw) [
  | none ↦ (c, err scale_decode_failed)
  | some ext ↦
      (record { published = c.published ++ (raw ∷ []); received = c.received ++ (ext ∷ []) }, ok tt)
]

-- `base + pending` wraps as in a release build.
unfoldable pub nonce_handler :
    (Bytes → Option Bytes) → Runtime → Mempool Extrinsic → Bytes → Result ℕ BadRequest
nonce_handler hex_decode rt mempool hex = elim (hex_decode hex) [
  | none ↦ err invalid_hex
  | some bytes ↦
      if length bytes == 32
      then (let account : AccountId32 = record { bytes = bytes } in
          let base = System.nonce rt.system account in
          let pending = length (filter_by (is_from account) mempool.pending) % 2 ^ 32 in
          ok ((base + pending) % 2 ^ 32))
      else err wrong_length
]

is_from_self : (ext : Extrinsic) → is_from ext.signer ext ≡ true
is_from_self ext = ground (arith, same_iff ext.signer ext.signer)

Consecutive-append :
    (n : ℕ) (xs : List Extrinsic) (x : Extrinsic)
    → Consecutive n xs
    → x.nonce ≡ n + length xs
    → Consecutive n (xs ++ (x ∷ []))
Consecutive-append n [] x h e = (omega arith, tt)
Consecutive-append n (y ∷ xs) x h e = (h.0, Consecutive-append (n + 1) xs x h.1 (omega arith))

-- If the pending extrinsics of an account run on from its nonce, and nonce and pool size
-- together fit 32 bits, they also run on with one more that has the nonce which the handler
-- answers.
pub nonce_handler_runs_on :
    (hex_decode : Bytes → Option Bytes) (rt : Runtime) (mempool : Mempool Extrinsic) (hex : Bytes)
    (ext : Extrinsic)
    → hex_decode hex ≡ some ext.signer.bytes
    → IsU32 (System.nonce rt.system ext.signer + length mempool.pending)
    → Consecutive
        (System.nonce rt.system ext.signer)
        (filter_by (is_from ext.signer) mempool.pending)
    → nonce_handler hex_decode rt mempool hex ≡ ok ext.nonce
    → Consecutive
        (System.nonce rt.system ext.signer)
        (filter_by (is_from ext.signer) (mempool.pending ++ (ext ∷ [])))
unfolding nonce_handler
nonce_handler_runs_on hex_decode rt mempool hex ext d room c h =
    let mine = filter_by (is_from ext.signer) mempool.pending in
    let few = length-filter_by (is_from ext.signer) mempool.pending in
    let n : ext.nonce ≡ System.nonce rt.system ext.signer + length mine =
      elim (Bool-cases (length ext.signer.bytes == 32)) [
        | inl y ↦ ground (arith, few, rw (nonce_handler, d, y) at h)
        | inr y ↦ ground (arith, rw (nonce_handler, d, y) at h)
      ] in
    rw (filter_by-append (is_from ext.signer) mempool.pending (ext ∷ []), is_from_self ext)
      (Consecutive-append (System.nonce rt.system ext.signer) mine ext c n)

-- With room for them, the handler answers the nonce of the account plus the number of its pending
-- extrinsics.
pub nonce_handler-pending :
    (hex_decode : Bytes → Option Bytes) (rt : Runtime) (mempool : Mempool Extrinsic) (hex : Bytes)
    (account : AccountId32)
    → hex_decode hex ≡ some account.bytes
    → length account.bytes ≡ 32
    → IsU32 (System.nonce rt.system account + length mempool.pending)
    → nonce_handler hex_decode rt mempool hex
      ≡ ok (System.nonce rt.system account + length (filter_by (is_from account) mempool.pending))
unfolding nonce_handler
nonce_handler-pending hex_decode rt mempool hex account d size room =
    let few = length-filter_by (is_from account) mempool.pending in
    let test : (length account.bytes == 32) ≡ true = ground arith in
    rw (nonce_handler, d, test) (ground (arith, few))
