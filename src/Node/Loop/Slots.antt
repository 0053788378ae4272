-- ===== src/Node/Loop/Slots.antt =====
-- Whose slot it is: `is_my_slot` of src/node.rs over a list of peers.
use rust_state_machine.Shared.{
  ℕ, ◌≡◌, ◌<◌, ◌%◌, ◌+◌, ◌*◌, ◌/◌, ◌∙◌, ◌-◌, ap, leb, Bool-cases, inl, inr, refl, true, some, List,
  [], ◌∷◌, length, get_elem?, arith, suc, zero,
}
use rust_state_machine.Shared.Order.{Ord, same, same_iff}
use rust_state_machine.Node.Loop.{current_slot, is_my_slot, secs_until_next, tick_time}
use native.Mathlib.Nat.{add-mul-mod_self_left, mod-eq_of_lt, mod-add-div}

-- From a slot on, a peer's turn comes before each of the others has had two.
turn_comes : (len i a : ℕ) → i < len → (k : ℕ) × (k < len) × ((a + k) % len ≡ i)
turn_comes len i a within = elim (Bool-cases (leb (a % len) i)) [
  | inl ahead ↦
      let e : a + (i - a % len) ≡ i + len * (a / len) = ground (arith, mod-add-div a len) in
      (
        i - a % len,
        omega arith,
        ap (λ n. n % len) e ∙ add-mul-mod_self_left i len (a / len) ∙ mod-eq_of_lt within,
      )
  | inr behind ↦
      let later : i < a % len = ground arith in
      let remainder : a % len < len = omega arith in
      let e : a + (i + len - a % len) ≡ i + len * (a / len + 1) =
        omega (arith, mod-add-div a len, later, remainder) in
      (
        i + len - a % len,
        omega (arith, later),
        ap (λ n. n % len) e ∙ add-mul-mod_self_left i len (a / len + 1) ∙ mod-eq_of_lt within,
      )
]

module _ {PeerId : Type 0} ⦃o : Ord PeerId⦄ where
  get_elem?-some :
      (xs : List PeerId) (i : ℕ) → i < length xs → (x : PeerId) × (get_elem? xs i ≡ some x)
  get_elem?-some [] i h = absurd (omega arith)
  get_elem?-some (x ∷ xs) zero h = (x, refl)
  get_elem?-some (x ∷ xs) (suc i) h = get_elem?-some xs i (omega arith)

  -- Peers that agree on a list that is not empty have exactly one author in the slot of any time:
  -- there is a peer whose slot it is, and for each other one the answer is no. There is no panic.
  pub one_author_per_slot :
      (now : ℕ) (peers : List PeerId)
      → 0 < length peers
      → (author : PeerId) × (is_my_slot now author peers ≡ some true)
        × ((id : PeerId) → is_my_slot now id peers ≡ some (same author id))
  unfolding is_my_slot
  one_author_per_slot now peers h =
      let (author, found) = get_elem?-some peers (current_slot now % length peers) (omega arith) in
      (author, rw found (ground (arith, same_iff author author)), λ id. rw found refl)

  -- A node that starts at any time has one tick in each slot from the next one on; and each peer of the
  -- list has its slot at one of the first ticks, of which there are no more than peers.
  pub ticks_take_turns :
      (now i : ℕ) (id : PeerId) (peers : List PeerId)
      → i < length peers
      → get_elem? peers i ≡ some id
      → ((k : ℕ) → current_slot (tick_time now k) ≡ current_slot now + 1 + k)
        × (k : ℕ) × (k < length peers)
        × (is_my_slot (tick_time now k) id peers ≡ some true)
  unfolding is_my_slot current_slot tick_time secs_until_next
  ticks_take_turns now i id peers within found =
      let ticks : (k : ℕ) → (now + (20 - now % 20) + k * 20) / 20 ≡ now / 20 + 1 + k =
        λ k. omega arith in
      let (k, few, turn) = turn_comes (length peers) i (now / 20 + 1) within in
      (ticks, k, few, rw (ticks k, turn, found, (same_iff id id).1 refl) refl)
