-- ===== src/Examples/Wires.antt =====
-- A toy encoding of blocks with its round trip: numbers stand as they are, byte strings and lists behind
-- their length.
use rust_state_machine.Shared.{
  ℕ, zero, suc, ◌≡◌, refl, Option, none, some, ◌>>=◌, List, [], ◌∷◌, ◌++◌, length, take, drop,
  take-append, drop-append,
}
use rust_state_machine.Shared.Order.{Bytes}
use rust_state_machine.Balances.Calls as BalancesCalls
use rust_state_machine.ProofOfExistence.Calls as ProofOfExistenceCalls
use rust_state_machine.Runtime.{RuntimeBlock, RuntimeCall, Extrinsic}
use rust_state_machine.Network.{Wire}

abbrev sized : Bytes → Bytes → Bytes
sized b rest = length b ∷ (b ++ rest)

abbrev split_sized : Bytes → Option (Bytes × Bytes)
split_sized [] = none
split_sized (n ∷ bytes) = some (take n bytes, drop n bytes)

abbrev call_bytes : RuntimeCall → Bytes → Bytes
call_bytes (RuntimeCall.balances (BalancesCalls.Call.transfer to amount)) rest =
    0 ∷ amount ∷ sized to.bytes rest
call_bytes (RuntimeCall.proof_of_existence (ProofOfExistenceCalls.Call.create_claim c)) rest =
    1 ∷ sized c rest
call_bytes (RuntimeCall.proof_of_existence (ProofOfExistenceCalls.Call.revoke_claim c)) rest =
    2 ∷ sized c rest

abbrev read_call : Bytes → Option (RuntimeCall × Bytes)
read_call (zero ∷ amount ∷ bytes) = do
  t ← split_sized bytes
  some (RuntimeCall.balances (BalancesCalls.Call.transfer (record { bytes = t.0 }) amount), t.1)
read_call (suc zero ∷ bytes) = do
  t ← split_sized bytes
  some (RuntimeCall.proof_of_existence (ProofOfExistenceCalls.Call.create_claim t.0), t.1)
read_call (suc (suc n) ∷ bytes) = do
  t ← split_sized bytes
  some (RuntimeCall.proof_of_existence (ProofOfExistenceCalls.Call.revoke_claim t.0), t.1)
read_call _ = none

read_call-call_bytes :
    (c : RuntimeCall) (rest : Bytes) → read_call (call_bytes c rest) ≡ some (c, rest)
read_call-call_bytes (RuntimeCall.balances (BalancesCalls.Call.transfer to amount)) rest =
    rw (take-append to.bytes rest, drop-append to.bytes rest) refl
read_call-call_bytes (RuntimeCall.proof_of_existence (ProofOfExistenceCalls.Call.create_claim c))
      rest =
    rw (take-append c rest, drop-append c rest) refl
read_call-call_bytes (RuntimeCall.proof_of_existence (ProofOfExistenceCalls.Call.revoke_claim c))
      rest =
    rw (take-append c rest, drop-append c rest) refl

abbrev ext_bytes : Extrinsic → Bytes → Bytes
ext_bytes e rest = e.nonce ∷ sized e.signer.bytes (sized e.signature (call_bytes e.call rest))

abbrev read_ext : Bytes → Option (Extrinsic × Bytes)
read_ext [] = none
read_ext (nonce ∷ bytes) = do
  s ← split_sized bytes
  g ← split_sized (s.1)
  c ← read_call (g.1)
  some (record { signer = record { bytes = s.0 }; nonce = nonce; signature = g.0; call = c.0 }, c.1)

read_ext-ext_bytes : (e : Extrinsic) (rest : Bytes) → read_ext (ext_bytes e rest) ≡ some (e, rest)
read_ext-ext_bytes e rest =
    let tail = call_bytes e.call rest in
    rw
      (
        take-append e.signer.bytes (sized e.signature tail),
        drop-append e.signer.bytes (sized e.signature tail),
        take-append e.signature tail,
        drop-append e.signature tail,
        read_call-call_bytes e.call rest,
      )
      refl

abbrev exts_bytes : List Extrinsic → Bytes
exts_bytes [] = []
exts_bytes (e ∷ es) = ext_bytes e (exts_bytes es)

abbrev read_exts : ℕ → Bytes → Option (List Extrinsic)
read_exts zero bytes = some []
read_exts (suc n) bytes = do t ← read_ext bytes; ts ← read_exts n (t.1); some (t.0 ∷ ts)

read_exts-exts_bytes : (es : List Extrinsic) → read_exts (length es) (exts_bytes es) ≡ some es
read_exts-exts_bytes [] = refl
read_exts-exts_bytes (e ∷ es) =
    rw (read_ext-ext_bytes e (exts_bytes es), read_exts-exts_bytes es) refl

abbrev block_bytes : RuntimeBlock → Bytes
block_bytes b = b.header.block_number ∷ length b.extrinsics ∷ exts_bytes b.extrinsics

abbrev read_block : Bytes → Option RuntimeBlock
read_block (number ∷ count ∷ bytes) = do
  exts ← read_exts count bytes
  some (record { header = record { block_number = number }; extrinsics = exts })
read_block _ = none

pub read_block-block_bytes : (b : RuntimeBlock) → read_block (block_bytes b) ≡ some b
read_block-block_bytes b = rw (read_exts-exts_bytes b.extrinsics) refl

abbrev pub toy_wire : Wire
toy_wire = record {
  encode_block = block_bytes;
  decode_block = read_block;
  decode_ext = λ bytes. read_ext bytes >>= λ t. some t.0;
  decode_block-encode_block = read_block-block_bytes;
}
