-- ===== src/Node/Loop.antt =====
-- The branches of the two `select!` loops in `run` of src/node.rs. The wall clock and the encoding of
-- blocks are parameters; a message on a channel is the argument of its branch.
pub mod Slots
pub mod Import
pub mod Connections
pub mod Agreement
pub mod Tick
pub mod Events
pub mod Total
pub mod Replicas
use rust_state_machine.Shared.{
  ℕ, ◌+◌, ◌-◌, ◌*◌, ◌/◌, ◌%◌, Bool, not, ◌&&◌, Option, some, none, ltb, if◌then◌else◌, ◌>>=◌, List,
  [], ◌∷◌, ◌++◌, length, any, get_elem?, filter_by, IsU32, IsU128, ◌==◌, ok, err, map,
}
use rust_state_machine.Shared.Order.{Bytes, Ord, same}
use rust_state_machine.Codec.{Codec, Always}
use rust_state_machine.Store.{KeyValueStore}
use rust_state_machine.Extrinsic.{AccountId32, account_ord, Ed25519, PayloadCodec}
use rust_state_machine.Mempool
use rust_state_machine.Mempool.{Mempool}
use rust_state_machine.Runtime.{
  Runtime, Extrinsic, RuntimeBlock, Content, RuntimeCall, execute_block,
}
use rust_state_machine.Node.Production.{Groups, produce_block}

abbrev pub slot_secs : ℕ
slot_secs = 20

-- The slot of a time in seconds since the epoch.
unfoldable pub current_slot : ℕ → ℕ
current_slot now = now / slot_secs

-- `SLOT_SECS - (now_secs % SLOT_SECS)`
unfoldable pub secs_until_next : ℕ → ℕ
secs_until_next now = slot_secs - now % slot_secs

-- The seconds at which the ticker of a task that starts at a time ticks, from tick 0 on.
unfoldable pub tick_time : ℕ → ℕ → ℕ
unfolding secs_until_next
tick_time now k = now + secs_until_next now + k * slot_secs

module _ {PeerId : Type 0} ⦃o : Ord PeerId⦄ where
  -- `peers[idx]` panics, with `none`, on an empty list.
  unfoldable pub is_my_slot : ℕ → PeerId → List PeerId → Option Bool
  is_my_slot now my_id peers = do
    author ← get_elem? peers (current_slot now % length peers)
    some (same author my_id)

  -- `peers.sort()`, by insertion.
  unfoldable pub insert_peer : PeerId → List PeerId → List PeerId
  insert_peer p [] = p ∷ []
  insert_peer p (q ∷ ps) = elim (o.cmp p q) [
    | Prim.Native.Nat.Ordering.lt ↦ p ∷ q ∷ ps
    | _ ↦ q ∷ insert_peer p ps
  ]

  unfoldable pub sort_peers : List PeerId → List PeerId
  sort_peers [] = []
  sort_peers (p ∷ ps) = insert_peer p (sort_peers ps)

  -- `peers.push(peer_id); peers.sort()`. The peers of equal order are equal.
  unfoldable pub connection_established : PeerId → List PeerId → List PeerId
  connection_established p peers = sort_peers (peers ++ (p ∷ []))

  unfoldable pub connection_closed : PeerId → List PeerId → List PeerId
  connection_closed p peers = filter_by (λ id. not (same id p)) peers

-- The branch of `rx_ext`: the error of a full pool is dropped.
unfoldable pub on_extrinsic : Mempool Extrinsic → Extrinsic → Mempool Extrinsic
on_extrinsic mempool ext = (Mempool.submit mempool ext).0

-- The pairs of signer and nonce of a block.
unfoldable pub included_in : RuntimeBlock → List (AccountId32 × ℕ)
included_in block = map (λ (e : Extrinsic). (e.signer, e.nonce)) block.extrinsics

unfoldable pub is_included : List (AccountId32 × ℕ) → Extrinsic → Bool
is_included included e = any (λ p. same p.0 e.signer && p.1 == e.nonce) included

module _ {S : Type 0} ⦃kv : KeyValueStore S⦄ ⦃account_codec : Codec AccountId32 Always⦄
    ⦃content_codec : Codec Content Always⦄ ⦃u32_codec : Codec ℕ IsU32⦄ ⦃u128_codec : Codec ℕ IsU128⦄
    ⦃dalek : Ed25519⦄ ⦃payload : PayloadCodec RuntimeCall⦄ where
  -- The branch of `rx_blk`: a block of a peer is executed; if it is accepted, its extrinsics leave
  -- the pool.
  unfoldable pub on_block :
      Runtime → S → Mempool Extrinsic → RuntimeBlock → Option (Runtime × S × Mempool Extrinsic)
  on_block rt s mempool block = do
    q ← execute_block rt s block
    some (
      q.0,
      q.1,
      elim (q.2) [
        | ok _ ↦ Mempool.retain mempool (λ e. not (is_included (included_in block) e))
        | err _ ↦ mempool
      ],
    )

  -- The branch of the ticker: no block while alone, and none in the slot of another.
  unfoldable pub on_tick :
      {PeerId : Type 0} ⦃o : Ord PeerId⦄
      → (Groups → Groups)
      → ℕ
      → PeerId
      → List PeerId
      → Runtime
      → S
      → Mempool Extrinsic
      → Option (Runtime × S × Mempool Extrinsic × Option RuntimeBlock)
  on_tick iterate now my_id peers rt s mempool =
      if ltb 1 (length peers)
      then (do
        mine ← is_my_slot now my_id peers
        if mine then produce_block iterate rt s mempool else some (rt, s, mempool, none))
      else some (rt, s, mempool, none)

-- A message on one of the two topics: what is sent on `tx_ext` and on `tx_blk`.
pub data Topic : Type 0 where
  extrinsics : Topic
  blocks : Topic
  other : Topic

unfoldable pub on_message :
    (Bytes → Option Extrinsic)
    → (Bytes → Option RuntimeBlock)
    → Topic
    → Bytes
    → Option Extrinsic × Option RuntimeBlock
on_message decode_ext decode_block Topic.extrinsics message = (decode_ext message, none)
on_message decode_ext decode_block Topic.blocks message = (none, decode_block message)
on_message decode_ext decode_block Topic.other message = (none, none)
