-- ===== src/Node/Loop/Connections.antt =====
-- The list of peers that `run` of src/node.rs keeps, over connections that are established and closed.
use rust_state_machine.Shared.{
  ℕ, ◌%◌, ◌≡◌, refl, sym, ap, ◌∙◌, arith, false, some, List, [], ◌∷◌, ◌++◌,
}
use rust_state_machine.Shared.Order.{Ord}
use rust_state_machine.Node.Loop.{
  current_slot, is_my_slot, insert_peer, sort_peers, connection_established,
}
use Prim.Native.Nat.Ordering.{lt}
use mathlib.Core.List.{Permᴰ}

module _ {PeerId : Type 0} ⦃o : Ord PeerId⦄ where
  insert_peer_comm :
      (a b : PeerId) (ps : List PeerId)
      → insert_peer a (insert_peer b ps) ≡ insert_peer b (insert_peer a ps)
  unfolding insert_peer
  insert_peer_comm a b [] = ground (arith, o.cmp-reversed a b, o.eq_of_cmp a b)
  insert_peer_comm a b (q ∷ ps) = ground (
    arith,
    o.cmp-reversed a b,
    o.eq_of_cmp a b,
    o.cmp-reversed a q,
    o.cmp-reversed b q,
    o.cmp_trans a b q,
    o.cmp_trans b a q,
    o.cmp_trans a q b,
    o.cmp_trans b q a,
    o.eq_of_cmp a q,
    o.eq_of_cmp b q,
    insert_peer_comm a b ps,
  )

  sort_peers-append_one :
      (p : PeerId) (ps : List PeerId) → sort_peers (ps ++ (p ∷ [])) ≡ insert_peer p (sort_peers ps)
  unfolding sort_peers
  sort_peers-append_one p [] = refl
  sort_peers-append_one p (q ∷ ps) =
      ap (insert_peer q) (sort_peers-append_one p ps) ∙ insert_peer_comm q p (sort_peers ps)

  sort_peers-insert_peer :
      (p : PeerId) (ps : List PeerId)
      → sort_peers (insert_peer p ps) ≡ insert_peer p (sort_peers ps)
  unfolding sort_peers insert_peer
  sort_peers-insert_peer p [] = refl
  sort_peers-insert_peer p (q ∷ ps) =
      ground (arith, insert_peer_comm q p (sort_peers ps), sort_peers-insert_peer p ps)

  sort_peers-sort_peers : (ps : List PeerId) → sort_peers (sort_peers ps) ≡ sort_peers ps
  unfolding sort_peers
  sort_peers-sort_peers [] = refl
  sort_peers-sort_peers (p ∷ ps) =
      sort_peers-insert_peer p (sort_peers ps) ∙ ap (insert_peer p) (sort_peers-sort_peers ps)

  -- One connection after another.
  abbrev pub establish_all : List PeerId → List PeerId → List PeerId
  establish_all [] peers = peers
  establish_all (p ∷ ps) peers = establish_all ps (connection_established p peers)

  sort_peers-append :
      (xs ys zs : List PeerId)
      → sort_peers ys ≡ sort_peers zs
      → sort_peers (xs ++ ys) ≡ sort_peers (xs ++ zs)
  unfolding sort_peers
  sort_peers-append [] ys zs h = h
  sort_peers-append (x ∷ xs) ys zs h = ap (insert_peer x) (sort_peers-append xs ys zs h)

  sort_peers-middle :
      (p : PeerId) (xs ys : List PeerId)
      → sort_peers (xs ++ (p ∷ ys)) ≡ insert_peer p (sort_peers (xs ++ ys))
  unfolding sort_peers
  sort_peers-middle p [] ys = refl
  sort_peers-middle p (x ∷ xs) ys =
      ap (insert_peer x) (sort_peers-middle p xs ys) ∙ insert_peer_comm x p (sort_peers (xs ++ ys))

  sort_peers-establish_all :
      (ps peers : List PeerId) → sort_peers (establish_all ps peers) ≡ sort_peers (ps ++ peers)
  unfolding sort_peers connection_established
  sort_peers-establish_all [] peers = refl
  sort_peers-establish_all (p ∷ ps) peers =
      sort_peers-establish_all ps (connection_established p peers)
      ∙ sort_peers-append ps (connection_established p peers) (p ∷ peers)
          (sort_peers-sort_peers (peers ++ (p ∷ [])) ∙ sort_peers-append_one p peers)
      ∙ sort_peers-middle p ps peers

  establish_all_sorted :
      (ps peers : List PeerId)
      → sort_peers peers ≡ peers
      → sort_peers (establish_all ps peers) ≡ establish_all ps peers
  establish_all_sorted [] peers h = h
  establish_all_sorted (p ∷ ps) peers h =
      establish_all_sorted ps (connection_established p peers)
        (unfold connection_established in sort_peers-sort_peers (peers ++ (p ∷ [])))

  sort_peers-Permᴰ : {ps qs : List PeerId} → Permᴰ ps qs → sort_peers ps ≡ sort_peers qs
  unfolding sort_peers
  sort_peers-Permᴰ Permᴰ.nil = refl
  sort_peers-Permᴰ (Permᴰ.cons {a = a} {l₂ = l₂} e h) =
      ap (insert_peer a) (sort_peers-Permᴰ h) ∙ ap (λ x. insert_peer x (sort_peers l₂)) e
  sort_peers-Permᴰ (Permᴰ.swap {a' = a'} {b' = b'} {l = l} e f) =
      rw (e, f) (insert_peer_comm b' a' (sort_peers l))
  sort_peers-Permᴰ (Permᴰ.trans h k) = sort_peers-Permᴰ h ∙ sort_peers-Permᴰ k

  from_self : (p : PeerId) (ps : List PeerId) → sort_peers (p ∷ ps) ≡ establish_all ps (p ∷ [])
  unfolding sort_peers insert_peer
  from_self p ps =
      sym (sort_peers-append_one p ps)
      ∙ sym (sort_peers-establish_all ps (p ∷ []))
      ∙ establish_all_sorted ps (p ∷ []) refl

  -- Two nodes that are connected to one another and to the same others, each connection established
  -- once and in whatever order, have the same list of peers.
  pub peers_agree :
      (a b : PeerId) (ps qs : List PeerId)
      → Permᴰ (a ∷ ps) (b ∷ qs)
      → establish_all ps (a ∷ []) ≡ establish_all qs (b ∷ [])
  peers_agree a b ps qs h = sym (from_self a ps) ∙ sort_peers-Permᴰ h ∙ from_self b qs

  -- If two nodes are connected twice, each with no other peer, then in one slot of three neither takes
  -- itself for the author, and no block is made.
  pub no_author_of_double_connection :
      (a b : PeerId) (now : ℕ)
      → o.cmp a b ≡ lt
      → current_slot now % 3 ≡ 1
      → (is_my_slot now a (establish_all (b ∷ b ∷ []) (a ∷ [])) ≡ some false)
        × (is_my_slot now b (establish_all (a ∷ a ∷ []) (b ∷ [])) ≡ some false)
  unfolding is_my_slot connection_established sort_peers insert_peer
  no_author_of_double_connection a b now less slot =
      let self_a = o.cmp-self a in
      let self_b = o.cmp-self b in
      let more = o.cmp-reversed a b in
      let list_a : establish_all (b ∷ b ∷ []) (a ∷ []) ≡ a ∷ b ∷ b ∷ [] =
        ground (arith, self_a, self_b, more) in
      let list_b : establish_all (a ∷ a ∷ []) (b ∷ []) ≡ a ∷ a ∷ b ∷ [] =
        ground (arith, self_a, self_b, more) in
      (rw (list_a, slot) (ground (arith, more, less)), rw (list_b, slot) (ground (arith, less)))
