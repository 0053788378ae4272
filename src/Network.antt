-- ===== src/Network.antt =====
-- Several nodes of src/node.rs that are connected through gossip: what one sends on `tx_pub` is
-- published by its swarm, and the swarm of each other one hands the bytes to its network loop. A round
-- is a slot in which each node hears extrinsics, then its ticker ticks, and each message arrives before
-- the slot ends. The encoding of extrinsics and blocks is a parameter.
pub mod Steps
pub mod Speaking
pub mod Slot
pub mod Rounds
use rust_state_machine.Shared.{
  ℕ, ◌≡◌, Option, some, none, ◌>>=◌, List, [], ◌∷◌, ◌++◌, IsU32, IsU128, length, map, drop,
  if◌then◌else◌,
}
use rust_state_machine.Shared.Order.{Bytes, Ord, same}
use rust_state_machine.Codec.{Codec, Always}
use rust_state_machine.Store.{KeyValueStore}
use rust_state_machine.Extrinsic.{AccountId32, account_ord, Ed25519, PayloadCodec}
use rust_state_machine.Mempool.{Mempool}
use rust_state_machine.Runtime.{Extrinsic, RuntimeBlock, Content, RuntimeCall}
use rust_state_machine.Node.Production.{Groups}
use rust_state_machine.Node.Loop.{Topic, on_message, on_extrinsic}
use rust_state_machine.Node.Loop.Events.{Node, Event, handle, handle_all}

-- A node with its peer id and the order in which its `HashMap` is iterated.
pub record Participant (PeerId S : Type 0) : Type 0 where
  pub id : PeerId
  pub iterate : Groups → Groups
  pub node : Node PeerId S

-- A `PublishReq` on its way, with its sender.
pub record Message (PeerId : Type 0) : Type 0 where
  pub sender : PeerId
  pub topic : Topic
  pub bytes : Bytes

-- What differs from node to node in one slot.
pub record Round (PeerId : Type 0) : Type 0 where
  pub time : PeerId → ℕ
  pub heard : PeerId → List Extrinsic

-- The pool after the extrinsics that came on `rx_ext`.
unfoldable pub take_in : Mempool Extrinsic → List Extrinsic → Mempool Extrinsic
take_in mempool [] = mempool
take_in mempool (ext ∷ exts) = take_in (on_extrinsic mempool ext) exts

-- What a message sends on `tx_ext` or `tx_blk`, for the branch that receives it there.
unfoldable pub forwarded :
    {PeerId : Type 0} → Option Extrinsic × Option RuntimeBlock → List (Event PeerId)
forwarded (some ext, sent) = Event.extrinsic ext ∷ []
forwarded (none, some b) = Event.block b ∷ []
forwarded (none, none) = []

-- The encoding on the two topics, with the round trip that parity_scale_codec promises for blocks.
pub record Wire : Type 0 where
  pub encode_block : RuntimeBlock → Bytes
  pub decode_block : Bytes → Option RuntimeBlock
  pub decode_ext : Bytes → Option Extrinsic
  pub decode_block-encode_block : (b : RuntimeBlock) → decode_block (encode_block b) ≡ some b

abbrev pub block_message : {PeerId : Type 0} → Wire → PeerId → RuntimeBlock → Message PeerId
block_message wire id b = record { sender = id; topic = Topic.blocks; bytes = wire.encode_block b }

-- The requests behind those that were sent before.
unfoldable pub requests :
    {PeerId : Type 0}
    → Wire
    → PeerId
    → List RuntimeBlock
    → List RuntimeBlock
    → List (Message PeerId)
requests wire id before after = map (block_message wire id) (drop (length before) after)

module _ {S : Type 0} ⦃kv : KeyValueStore S⦄ ⦃account_codec : Codec AccountId32 Always⦄
    ⦃content_codec : Codec Content Always⦄ ⦃u32_codec : Codec ℕ IsU32⦄ ⦃u128_codec : Codec ℕ IsU128⦄
    ⦃dalek : Ed25519⦄ ⦃payload : PayloadCodec RuntimeCall⦄ {PeerId : Type 0} ⦃o : Ord PeerId⦄
    (wire : Wire) where
  -- A node hears extrinsics and ticks; what it publishes goes on its way.
  unfoldable pub speak :
      Round PeerId → Participant PeerId S → Option (Participant PeerId S × List (Message PeerId))
  speak round p = do
    let mempool = take_in p.node.mempool (round.heard p.id)
    node ←
        handle p.id p.iterate (Event.tick (round.time p.id)) (record p.node { mempool = mempool })
    some (record p { node = node }, requests wire p.id p.node.published node.published)

  unfoldable pub receive : Message PeerId → Participant PeerId S → Option (Participant PeerId S)
  receive m p = do
    node ←
        handle_all p.id p.iterate
          (forwarded (on_message wire.decode_ext wire.decode_block m.topic m.bytes)) p.node
    some (record p { node = node })

  -- A node does not hear its own messages.
  unfoldable pub listen :
      List (Message PeerId) → Participant PeerId S → Option (Participant PeerId S)
  listen [] p = some p
  listen (m ∷ messages) p = (if same m.sender p.id then some p else receive m p) >>= listen messages

  unfoldable pub speak_all :
      Round PeerId
      → List (Participant PeerId S)
      → Option (List (Participant PeerId S) × List (Message PeerId))
  speak_all round [] = some ([], [])
  speak_all round (p ∷ ps) = do
    t ← speak round p
    u ← speak_all round ps
    some (t.0 ∷ u.0, t.1 ++ u.1)

  unfoldable pub listen_all :
      List (Message PeerId) → List (Participant PeerId S) → Option (List (Participant PeerId S))
  listen_all messages [] = some []
  listen_all messages (p ∷ ps) = do
    q ← listen messages p
    qs ← listen_all messages ps
    some (q ∷ qs)

  unfoldable pub run_round :
      Round PeerId → List (Participant PeerId S) → Option (List (Participant PeerId S))
  run_round round ps = do t ← speak_all round ps; listen_all t.1 t.0

  unfoldable pub run_rounds :
      List (Round PeerId) → List (Participant PeerId S) → Option (List (Participant PeerId S))
  run_rounds [] ps = some ps
  run_rounds (round ∷ rounds) ps = run_round round ps >>= run_rounds rounds
