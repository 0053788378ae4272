-- ===== src/Network/Slot.antt =====
-- A whole slot of a network of nodes of src/node.rs: one of them makes a block, the others execute it.
use rust_state_machine.Shared.{
  ℕ, ◌*◌, ◌<◌, ◌≤◌, ◌+◌, ◌≡◌, refl, ap, ◌∙◌, arith, false, inl, inr, some, List, [], ◌∷◌, All,
  length, map, ap₂, IsU32, IsU128,
}
use rust_state_machine.Shared.Order.{Ord, same}
use rust_state_machine.Codec.{Codec, Always}
use rust_state_machine.Store.{KeyValueStore}
use rust_state_machine.Extrinsic.{AccountId32, account_ord, Ed25519, PayloadCodec}
use rust_state_machine.Runtime.{Runtime, RuntimeBlock, Content, RuntimeCall}
use rust_state_machine.Node.Loop.{current_slot}
use rust_state_machine.Node.Loop.Slots.{one_author_per_slot}
use rust_state_machine.Node.Loop.Total.{sum_over}
use rust_state_machine.System
use rust_state_machine.Network.{Participant, Round, Wire, block_message, listen_all, run_round}
use rust_state_machine.Network.Speaking.{Spoke, speak_all_heard}
use rust_state_machine.Network.Steps.{
  All-map, Distinct, is_my_slot_of_slot, no_slot_of_others, InOneSlot, HasRuntime, pending_of,
  heard_by, Leads, listen_other, listen_self,
}

sum_over-map :
    {A B : Type 0} (f : A → B) (g : B → ℕ) (xs : List A)
    → sum_over (λ x. g (f x)) xs ≡ sum_over g (map f xs)
sum_over-map f g [] = refl
sum_over-map f g (x ∷ xs) = ap (λ n. g (f x) + n) (sum_over-map f g xs)

module _ {S : Type 0} ⦃kv : KeyValueStore S⦄ ⦃account_codec : Codec AccountId32 Always⦄
    ⦃content_codec : Codec Content Always⦄ ⦃u32_codec : Codec ℕ IsU32⦄ ⦃u128_codec : Codec ℕ IsU128⦄
    ⦃dalek : Ed25519⦄ ⦃payload : PayloadCodec RuntimeCall⦄ {PeerId : Type 0} ⦃o : Ord PeerId⦄
    (wire : Wire) where
  listen_all_agree :
      (peers : List PeerId) (author : PeerId) (rt rt' : Runtime) (b : RuntimeBlock)
      (ps : List (Participant PeerId S))
      → Leads S rt b rt'
      → All (Spoke peers author rt rt') ps
      → (qs : List (Participant PeerId S)) × (listen_all wire (block_message wire author b ∷ []) ps
          ≡ some qs)
        × (map (λ (p : Participant PeerId S). p.id) qs
            ≡ map (λ (p : Participant PeerId S). p.id) ps)
        × All (HasRuntime peers rt') qs
        × (sum_over pending_of qs ≤ sum_over pending_of ps)
  unfolding listen_all
  listen_all_agree peers author rt rt' b [] leads spoke = ([], refl, refl, tt, omega arith)
  listen_all_agree peers author rt rt' b (p ∷ ps) (s, s', run) ((same_peers, v, which), spoke) =
      let (qs, rest, ids, agree, fewer) =
        listen_all_agree peers author rt rt' b ps (s, s', run) spoke in
      elim which [
        | inl (own, after) ↦ (
          p ∷ qs,
          rw (listen_self wire p author b own, rest) refl,
          ap (λ xs. p.id ∷ xs) ids,
          ((after, same_peers, v), agree),
          omega (arith, fewer),
        )
        | inr (other, before) ↦
            let (q, first, same_id, kept, few) =
              listen_other wire p author b rt' (s, s', rw before run) other v in
            (
              q ∷ qs,
              rw (first, rest) refl,
              ap₂ (λ x xs. x ∷ xs) same_id ids,
              ((kept.0, kept.1 ∙ same_peers, kept.2), agree),
              omega (arith, few, fewer),
            )
      ]

  pub run_round_agrees :
      (round : Round PeerId) (peers : List PeerId) (rt : Runtime) (ps : List (Participant PeerId S))
      → InOneSlot round
      → 1 < length peers
      → Distinct peers
      → map (λ (p : Participant PeerId S). p.id) ps ≡ peers
      → All (HasRuntime peers rt) ps
      → IsU32 (rt.system.block_number + 1)
      → ((a : AccountId32)
          → IsU32
              (System.nonce rt.system a + sum_over pending_of ps + sum_over (heard_by round) peers))
      → (qs : List (Participant PeerId S)) × (run_round wire round ps ≡ some qs)
        × (b : RuntimeBlock) × (rt' : Runtime) × (map (λ (p : Participant PeerId S). p.id) qs
            ≡ peers)
        × All (HasRuntime peers rt') qs
        × Leads S rt b rt'
        × ((a : AccountId32)
            → System.nonce rt'.system a + sum_over pending_of qs
              ≤ System.nonce rt.system a + sum_over pending_of ps + sum_over (heard_by round) peers)
  unfolding run_round
  run_round_agrees round peers rt ps (slot, clocks) several distinct ids agree height room =
      let (author, own, turn) = one_author_per_slot (slot * 20) peers (omega arith) in
      let turns = λ (id : PeerId).
        is_my_slot_of_slot (round.time id) (slot * 20) id peers
          (clocks id ∙ unfold current_slot in omega arith)
        ∙ turn id in
      let heard =
        sum_over-map (λ (p : Participant PeerId S). p.id) (heard_by round) ps
        ∙ ap (sum_over (heard_by round)) ids in
      let (t, first, same_ids, spoke) =
        speak_all_heard wire round peers several author turns rt ps height
          (λ a. omega (arith, room a, heard)) agree (rw ids distinct) in
      elim spoke [
        | inl others ↦ absurd (
            no_slot_of_others (slot * 20) author peers own (
              rw (← ids) (
                All-map (λ (p : Participant PeerId S). p.id) (λ q. same author q ≡ false) ps
                  others)))
        | inr (b, rt', said, leads, spoken, few) ↦
            let (qs, rest, kept, done, fewer) =
              listen_all_agree peers author rt rt' b t.0 leads spoken in
            (
              qs,
              rw (first, said) rest,
              b,
              rt',
              kept ∙ same_ids ∙ ids,
              done,
              leads,
              λ a. omega (arith, few a, fewer, heard),
            )
      ]
