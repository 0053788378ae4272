-- ===== src/Examples/Commands.antt =====
-- The commands of src/main.rs at concrete inputs: a node that is a runtime and a pool behind HTTP,
-- and a store in memory.
use rust_state_machine.Shared.{
  ℕ, zero, suc, ◌+◌, ◌*◌, ◌-◌, ◌≡◌, ◌≢◌, refl, ap, Option, none, some, ◌>>=◌, List, [], ◌∷◌, ◌++◌,
  length, take, drop, filter_by, leb, if◌then◌else◌, ok, arith,
}
use rust_state_machine.Shared.Order.{Bytes, bytes_ord, same}
use rust_state_machine.Store.Memory.{MemStore, mem_store}
use rust_state_machine.Dispatch.{DispatchResult}
use rust_state_machine.Extrinsic.{AccountId32, account_ord, new_signed, verify}
use rust_state_machine.BTreeMap as Map
use rust_state_machine.System
use rust_state_machine.Balances
use rust_state_machine.Balances.Calls as BalancesCalls
use rust_state_machine.ProofOfExistence.Calls as ProofOfExistenceCalls
use rust_state_machine.ProofOfExistence
use rust_state_machine.Mempool
use rust_state_machine.Mempool.{Mempool}
use rust_state_machine.Cli.Demo.{
  block_1, block_2, block_3, block_4, block_5, demo_pool, execute_ignoring, run_demo,
}
use rust_state_machine.Runtime.{Runtime, Extrinsic, RuntimeCall, new, execute_block}
use rust_state_machine.Genesis.{AccountKeyring, signing_key, public_key}
use rust_state_machine.Node.Production.Batch.{is_from}
use rust_state_machine.Node.Production.Blocks.{Consecutive}
use rust_state_machine.Node.Rpc.{nonce_handler, submit_handler}
use rust_state_machine.Network.{take_in}
use rust_state_machine.Cli.Text.{hex_text, hex_digit, nonce_url, submit_url}
use rust_state_machine.Cli.Submit.{Http, Report, submit_to_node, transfer_locally}
use rust_state_machine.Cli.Submit.Remote.{
  Server, text_of, status_of, IsConnected, submit_to_node_lem,
}
use rust_state_machine.Cli.Submit.Local.{transfer_locally_lem}
use package.rust_state_machine.Examples.{
  account_codec, content_codec, u32_codec, u128_codec, dalek, payload, encode_call, empty_store,
  pay_bob, claim_seven,
}
use package.rust_state_machine.Examples.Blocks.{start}

abbrev by_seed : Bytes → Bytes
by_seed bytes = bytes

abbrev decode_call : Bytes → Option RuntimeCall
decode_call (zero ∷ amount ∷ to) =
    some (RuntimeCall.balances (BalancesCalls.Call.transfer (record { bytes = to }) amount))
decode_call (suc zero ∷ c) =
    some (RuntimeCall.proof_of_existence (ProofOfExistenceCalls.Call.create_claim c))
decode_call (suc (suc zero) ∷ c) =
    some (RuntimeCall.proof_of_existence (ProofOfExistenceCalls.Call.revoke_claim c))
decode_call _ = none

abbrev encode : Extrinsic → Bytes
encode ext =
    ext.nonce
    ∷ length ext.signer.bytes
    ∷ length ext.signature
    ∷ (ext.signer.bytes ++ (ext.signature ++ encode_call ext.call))

abbrev decode : Bytes → Option Extrinsic
decode (nonce ∷ n ∷ m ∷ bytes) = do
  call ← decode_call (drop m (drop n bytes))
  some (record {
    signer = record { bytes = take n bytes };
    signature = take m (drop n bytes);
    nonce = nonce;
    call = call;
  })
decode _ = none

take-front : (xs ys : Bytes) → take (length xs) (xs ++ ys) ≡ xs
take-front [] ys = refl
take-front (x ∷ xs) ys = ap (λ zs. x ∷ zs) (take-front xs ys)

drop-front : (xs ys : Bytes) → drop (length xs) (xs ++ ys) ≡ ys
drop-front [] ys = refl
drop-front (x ∷ xs) ys = drop-front xs ys

decode_call-encode_call : (call : RuntimeCall) → decode_call (encode_call call) ≡ some call
decode_call-encode_call (RuntimeCall.balances (BalancesCalls.Call.transfer to amount)) = refl
decode_call-encode_call
      (RuntimeCall.proof_of_existence (ProofOfExistenceCalls.Call.create_claim c)) =
    refl
decode_call-encode_call
      (RuntimeCall.proof_of_existence (ProofOfExistenceCalls.Call.revoke_claim c)) =
    refl

decode-encode : (ext : Extrinsic) → decode (encode ext) ≡ some ext
decode-encode ext =
    rw
      (
        take-front ext.signer.bytes (ext.signature ++ encode_call ext.call),
        drop-front ext.signer.bytes (ext.signature ++ encode_call ext.call),
        take-front ext.signature (encode_call ext.call),
        drop-front ext.signature (encode_call ext.call),
        decode_call-encode_call ext.call,
      )
      refl

abbrev hex_value : ℕ → ℕ
hex_value c = if leb b'a' c then c - 87 else c - b'0'

abbrev hex_decode : Bytes → Option Bytes
hex_decode [] = some []
hex_decode (c ∷ []) = none
hex_decode (c ∷ d ∷ text) = do
  rest ← hex_decode text
  some ((hex_value c * 16 + hex_value d) ∷ rest)

-- The node behind the empty address, so that a path is the whole URL.
abbrev http : Http Server
http = record {
  get = λ w url. (w, text_of (nonce_handler hex_decode w.runtime w.mempool (drop 7 url)));
  post = λ w url body.
      let (channels, r) = submit_handler decode w.channels body in
      (record w { channels = channels }, status_of r);
}

http-IsConnected : IsConnected http hex_decode decode [] (λ w. w)
unfolding nonce_url submit_url
http-IsConnected = record {
  get_nonce = λ w hex. refl;
  post_state = λ w body. refl;
  post_reply = λ w body. refl;
}

abbrev alice_key : AccountId32
alice_key = public_key by_seed AccountKeyring.alice

-- One extrinsic of Alice is pending.
abbrev served : Server
served = record {
  runtime = start;
  mempool = record {
    pending = new_signed (signing_key by_seed AccountKeyring.alice) 0 pay_bob ∷ [];
    max_capacity = none;
    block_limit = some 3;
  };
  channels = record { published = []; received = [] };
}

submit_to_node_example :
    (w' : Server) × (ext : Extrinsic) × (submit_to_node by_seed http encode AccountKeyring.alice
        claim_seven [] served
      ≡ some (w', Report.submitted 202))
    × ((ext.signer ≡ alice_key) × (ext.call ≡ claim_seven) × (verify ext ≡ ok tt))
    × (w'
        ≡ record served { channels = record { published = encode ext ∷ []; received = ext ∷ [] } })
    × ((take_in w'.mempool w'.channels.received).pending ≡ served.mempool.pending ++ (ext ∷ []))
    × Consecutive
        (System.nonce start.system alice_key)
        (filter_by (is_from alice_key) (take_in w'.mempool w'.channels.received).pending)
    × (w'' : Server) × (ext' : Extrinsic) × (submit_to_node by_seed http encode AccountKeyring.alice
          pay_bob [] w'
        ≡ some (w'', Report.submitted 202))
    × (ext'.nonce ≡ ext.nonce)
    × (w''.channels.received ≡ ext ∷ ext' ∷ [])
submit_to_node_example =
    submit_to_node_lem by_seed http encode decode hex_decode [] (λ w. w) http-IsConnected
      AccountKeyring.alice claim_seven pay_bob served (decode-encode _) (decode-encode _)
      (unfold hex_text hex_digit public_key signing_key in refl)
      (unfold public_key signing_key in refl) refl refl
      (unfold System.nonce Map.get public_key in omega arith)
      (unfold System.nonce Map.get public_key signing_key new_signed in (refl, tt))

keys_differ : public_key by_seed AccountKeyring.alice ≢ public_key by_seed AccountKeyring.bob
unfolding public_key signing_key
keys_differ e = cc e

abbrev bob_key : AccountId32
bob_key = public_key by_seed AccountKeyring.bob

abbrev stored : Runtime
stored = new empty_store

stored-blank : stored ≡ record {
  system = record { block_number = 0; nonce = [] };
  balances = record { balances = [] };
  proof_of_existence = record { claims = [] };
}
unfolding new System.new Balances.new ProofOfExistence.new mem_store System.load_block_number
    rust_state_machine.Storage.load_entries Map.get
stored-blank = refl

transfer_locally_example :
    (q : Runtime × MemStore × DispatchResult) × (transfer_locally by_seed AccountKeyring.alice
        (RuntimeCall.balances (BalancesCalls.Call.transfer bob_key 7))
        7
        empty_store
      ≡ some q)
    × (q.2 ≡ ok tt)
    × (q.0.system.block_number ≡ stored.system.block_number + 1)
    × (System.nonce q.0.system alice_key ≡ System.nonce stored.system alice_key + 1)
    × (Balances.balance q.0.balances bob_key ≡ (
        if same bob_key alice_key
        then 9 * 7
        else if same bob_key bob_key
        then Balances.balance stored.balances bob_key + 7
        else Balances.balance stored.balances bob_key))
transfer_locally_example =
    transfer_locally_lem by_seed AccountKeyring.alice AccountKeyring.bob 7 empty_store bob_key
      keys_differ (omega arith) (rw stored-blank (unfold Balances.balance Map.get in omega arith))
      (rw stored-blank (omega arith)) (rw stored-blank (unfold System.nonce Map.get in omega arith))

-- The balances of Alice, Bob and Charlie, and the block number.
abbrev summary : Runtime × MemStore → List ℕ
summary (rt, s) =
    Balances.balance rt.balances (public_key by_seed AccountKeyring.alice)
    ∷ Balances.balance rt.balances (public_key by_seed AccountKeyring.bob)
    ∷ Balances.balance rt.balances (public_key by_seed AccountKeyring.charlie)
    ∷ rt.system.block_number
    ∷ []

-- All the transfers of the demo are applied.
run_demo-summary :
    (run_demo by_seed empty_store >>= λ t. some (summary t)) ≡ some (66 ∷ 29 ∷ 5 ∷ 6 ∷ [])
unfolding run_demo block_1 block_2 block_3 block_4 block_5 demo_pool execute_ignoring new System.new
    Balances.new ProofOfExistence.new mem_store System.load_block_number
    rust_state_machine.Storage.load_entries execute_block System.inc_block_number
    rust_state_machine.Runtime.apply_extrinsics rust_state_machine.Extrinsic.verify_batch
    rust_state_machine.Runtime.apply_extrinsic verify new_signed System.nonce Map.get
    System.inc_nonce rust_state_machine.Runtime.dispatch Balances.dispatch Balances.transfer
    Balances.set_balance Balances.balance Map.insert Map.last_key Map.remove
    ProofOfExistence.dispatch ProofOfExistence.create_claim ProofOfExistence.revoke_claim
    ProofOfExistence.get_claim rust_state_machine.Storage.entry_key ProofOfExistence.claim_key
    Balances.balance_key public_key signing_key Mempool.new Mempool.submit Mempool.drain_for_block
    Mempool.drain_loop
run_demo-summary = refl
