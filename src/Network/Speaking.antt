-- ===== src/Network/Speaking.antt =====
-- The first half of a slot of a network of nodes of src/node.rs: each of them speaks, one of them a block.
use rust_state_machine.Shared.{
  ℕ, ◌<◌, ◌≤◌, ◌+◌, ◌≡◌, ◌⊎◌, refl, sym, ap, ◌∙◌, arith, Bool-cases, true, false, inl, inr, some,
  List, [], ◌∷◌, ◌++◌, All, length, map, ap₂, IsU32, IsU128,
}
use rust_state_machine.Shared.Order.{Ord, same, same_iff}
use rust_state_machine.Codec.{Codec, Always}
use rust_state_machine.Store.{KeyValueStore}
use rust_state_machine.Extrinsic.{AccountId32, account_ord, Ed25519, PayloadCodec}
use rust_state_machine.Runtime.{Runtime, RuntimeBlock, Content, RuntimeCall}
use rust_state_machine.Node.Loop.{is_my_slot}
use rust_state_machine.Node.Loop.Total.{sum_over}
use rust_state_machine.Node.Production.Batch.{VisitsEachOnce}
use rust_state_machine.System
use rust_state_machine.Network.{Participant, Message, Round, Wire, block_message, speak_all}
use rust_state_machine.Network.Steps.{
  Distinct, HasRuntime, pending_of, heard_by, Leads, speak_other, speak_author,
}

module _ {PeerId S : Type 0} ⦃o : Ord PeerId⦄ where
  -- What stands after the first half of a slot: the author has executed its block, and nobody else.
  abbrev pub Spoke : List PeerId → PeerId → Runtime → Runtime → Participant PeerId S → Type 0
  Spoke peers author rt rt' p =
      (p.node.peers ≡ peers)
      × VisitsEachOnce p.iterate
      × (((same author p.id ≡ true) × (p.node.runtime ≡ rt'))
          ⊎ ((same author p.id ≡ false) × (p.node.runtime ≡ rt)))

  abbrev IsOther : PeerId → Participant PeerId S → Type 0
  IsOther author p = same author p.id ≡ false

  abbrev pub heard_all : Round PeerId → List (Participant PeerId S) → ℕ
  heard_all round ps = sum_over (λ p. heard_by round p.id) ps

  IsOther-of_Distinct :
      (author id : PeerId) (ps : List (Participant PeerId S))
      → author ≡ id
      → All (λ q. same id q ≡ false) (map (λ (p : Participant PeerId S). p.id) ps)
      → All (IsOther author) ps
  IsOther-of_Distinct author id [] e h = tt
  IsOther-of_Distinct author id (p ∷ ps) e h =
      (ap (λ x. same x p.id) e ∙ h.0, IsOther-of_Distinct author id ps e h.1)

module _ {S : Type 0} ⦃kv : KeyValueStore S⦄ ⦃account_codec : Codec AccountId32 Always⦄
    ⦃content_codec : Codec Content Always⦄ ⦃u32_codec : Codec ℕ IsU32⦄ ⦃u128_codec : Codec ℕ IsU128⦄
    ⦃dalek : Ed25519⦄ ⦃payload : PayloadCodec RuntimeCall⦄ {PeerId : Type 0} ⦃o : Ord PeerId⦄
    (wire : Wire) where
  module _ (round : Round PeerId) (peers : List PeerId) (several : 1 < length peers)
      (author : PeerId)
      (turn : (id : PeerId) → is_my_slot (round.time id) id peers ≡ some (same author id)) where
    speak_all_silent :
        (rt rt' : Runtime) (ps : List (Participant PeerId S))
        → All (HasRuntime peers rt) ps
        → All (IsOther author) ps
        → (t : List (Participant PeerId S) × List (Message PeerId)) × (speak_all wire round ps
            ≡ some t)
          × (map (λ (p : Participant PeerId S). p.id) t.0
              ≡ map (λ (p : Participant PeerId S). p.id) ps)
          × All (Spoke peers author rt rt') t.0
          × (t.1 ≡ [])
          × (sum_over pending_of t.0 ≤ sum_over pending_of ps + heard_all round ps)
    unfolding speak_all
    speak_all_silent rt rt' [] agree others = (([], []), refl, refl, tt, refl, omega arith)
    speak_all_silent rt rt' (p ∷ ps) ((same_rt, same_peers, v), agree) (other, others) =
        let turn_p : is_my_slot (round.time p.id) p.id p.node.peers ≡ some false =
          ap (is_my_slot (round.time p.id) p.id) same_peers ∙ turn p.id ∙ ap some other in
        let (t₁, first, same_id, kept, silent, few) =
          speak_other wire round p (rw same_peers several) turn_p v in
        let (t₂, rest, ids, spoke, nothing, fewer) = speak_all_silent rt rt' ps agree others in
        (
          (t₁.0 ∷ t₂.0, t₁.1 ++ t₂.1),
          rw (first, rest) refl,
          ap₂ (λ x xs. x ∷ xs) same_id ids,
          (
            (kept.1 ∙ same_peers, kept.2, inr (ap (same author) same_id ∙ other, kept.0 ∙ same_rt)),
            spoke,
          ),
          ap₂ (λ xs ys. xs ++ ys) silent nothing,
          omega (arith, few, fewer),
        )

    pub speak_all_heard :
        (rt : Runtime) (ps : List (Participant PeerId S))
        → IsU32 (rt.system.block_number + 1)
        → ((a : AccountId32)
            → IsU32 (System.nonce rt.system a + sum_over pending_of ps + heard_all round ps))
        → All (HasRuntime peers rt) ps
        → Distinct (map (λ (p : Participant PeerId S). p.id) ps)
        → (t : List (Participant PeerId S) × List (Message PeerId)) × (speak_all wire round ps
            ≡ some t)
          × (map (λ (p : Participant PeerId S). p.id) t.0
              ≡ map (λ (p : Participant PeerId S). p.id) ps)
          × (All (IsOther author) ps
              ⊎ ((b : RuntimeBlock) × (rt' : Runtime) × (t.1 ≡ block_message wire author b ∷ [])
                  × Leads S rt b rt'
                  × All (Spoke peers author rt rt') t.0
                  × ((a : AccountId32)
                      → System.nonce rt'.system a + sum_over pending_of t.0
                        ≤ System.nonce rt.system a + sum_over pending_of ps + heard_all round ps)))
    unfolding speak_all
    speak_all_heard rt [] height room agree distinct = (([], []), refl, refl, inl tt)
    speak_all_heard rt (p ∷ ps) height room ((same_rt, same_peers, v), agree) distinct =
        let turn_p = ap (is_my_slot (round.time p.id) p.id) same_peers ∙ turn p.id in
        elim (Bool-cases (same author p.id)) [
          | inl own ↦
              let name = (same_iff author p.id).0 own in
              let others : All (IsOther author) ps =
                IsOther-of_Distinct author p.id ps name distinct.0 in
              let (t₁, first, same_id, kept, b, said, (s, s', run), few) =
                speak_author wire round p (rw same_peers several) (turn_p ∙ ap some own) v
                  (omega (arith, height, ap (λ (x : Runtime). x.system.block_number) same_rt))
                  (λ a.
                    omega (arith, room a, ap (λ (x : Runtime). System.nonce x.system a) same_rt)) in
              let (t₂, rest, ids, spoke, nothing, fewer) =
                speak_all_silent rt t₁.0.node.runtime ps agree others in
              (
                (t₁.0 ∷ t₂.0, t₁.1 ++ t₂.1),
                rw (first, rest) refl,
                ap₂ (λ x xs. x ∷ xs) same_id ids,
                inr (
                  b,
                  t₁.0.node.runtime,
                  ap₂ (λ xs ys. xs ++ ys) said nothing
                      ∙ ap (λ id. block_message wire id b ∷ []) (sym name),
                  (s, s', rw (← same_rt) run),
                  (
                    (kept.1 ∙ same_peers, kept.2, inl (ap (same author) same_id ∙ own, refl)),
                    spoke,
                  ),
                  λ a.
                      omega (
                        arith,
                        few a,
                        fewer,
                        ap (λ (x : Runtime). System.nonce x.system a) same_rt,
                      ),
                ),
              )
          | inr other ↦
              let (t₁, first, same_id, kept, silent, few) =
                speak_other wire round p (rw same_peers several) (turn_p ∙ ap some other) v in
              let (t₂, rest, ids, cases) =
                speak_all_heard rt ps height (λ a. omega (arith, room a)) agree distinct.1 in
              (
                (t₁.0 ∷ t₂.0, t₁.1 ++ t₂.1),
                rw (first, rest) refl,
                ap₂ (λ x xs. x ∷ xs) same_id ids,
                elim cases [
                  | inl others ↦ inl (other, others)
                  | inr (b, rt', said, leads, spoke, fewer) ↦ inr (
                    b,
                    rt',
                    ap₂ (λ xs ys. xs ++ ys) silent said,
                    leads,
                    (
                      (
                        kept.1 ∙ same_peers,
                        kept.2,
                        inr (ap (same author) same_id ∙ other, kept.0 ∙ same_rt),
                      ),
                      spoke,
                    ),
                    λ a. omega (arith, few, fewer a),
                  )
                ],
              )
        ]
