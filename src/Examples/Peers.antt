-- ===== src/Examples/Peers.antt =====
-- The peers of src/node.rs at concrete inputs.
use rust_state_machine.Shared.{◌≡◌, refl, false, some, [], ◌∷◌}
use rust_state_machine.Shared.Order.{bytes_ord}
use rust_state_machine.Extrinsic.{AccountId32, account_ord}
use rust_state_machine.Node.Loop.{current_slot, is_my_slot}
use rust_state_machine.Node.Loop.Connections.{
  establish_all, peers_agree, no_author_of_double_connection,
}
use mathlib.Core.List.{Permᴰ}
use package.rust_state_machine.Examples.{alice, bob}

abbrev charlie : AccountId32
charlie = record { bytes = 3 ∷ [] }

-- Alice sees Charlie first, Bob sees Alice first.
peers_agree_example :
    establish_all (charlie ∷ bob ∷ []) (alice ∷ [])
    ≡ establish_all (alice ∷ charlie ∷ []) (bob ∷ [])
peers_agree_example =
    peers_agree alice bob (charlie ∷ bob ∷ []) (alice ∷ charlie ∷ [])
      (Permᴰ.trans (Permᴰ.cons refl (Permᴰ.swap refl refl)) (Permᴰ.swap refl refl))

-- A time in slot 1.
no_author_of_double_connection_example :
    (is_my_slot 25 alice (establish_all (bob ∷ bob ∷ []) (alice ∷ [])) ≡ some false)
    × (is_my_slot 25 bob (establish_all (alice ∷ alice ∷ []) (bob ∷ [])) ≡ some false)
no_author_of_double_connection_example =
    no_author_of_double_connection alice bob 25 refl (unfold current_slot in refl)
