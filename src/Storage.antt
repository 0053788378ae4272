-- ===== src/Storage.antt =====
-- How the pallets of src/system.rs, src/balances.rs and src/proof_of_existence.rs keep a map in the
-- store: one entry for each key, under a prefix, and a scan of the prefix at start-up.
pub mod Load
pub mod Reload
use Prim.Native.String.{String}
use Prim.Native.Char.{code}
use rust_state_machine.Shared.{
  ℕ, ◌≡◌, Option, none, some, List, [], ◌∷◌, ◌++◌, length, drop, leb, if◌then◌else◌,
}
use rust_state_machine.Shared.Order.{Ord, Bytes}
use rust_state_machine.Codec.{Codec, Always}
use rust_state_machine.Store.{KeyValueStore}
use rust_state_machine.BTreeMap as Map
use rust_state_machine.BTreeMap.{BTreeMap}

-- The bytes of an ASCII literal.
abbrev pub codes : String → Bytes
codes String.[] = []
codes (String.◌∷◌ c s) = code c ∷ codes s

-- `Fits` says which values the type of the values has: for numbers, those of a width.
module _ {K V : Type 0} (Fits : V → Type 0) ⦃o : Ord K⦄ ⦃kc : Codec K Always⦄
    ⦃vc : Codec V Fits⦄ where
  -- The body of the loop over a scan: entries that are too short or do not decode are passed over.
  unfoldable pub load_entry : Bytes → BTreeMap K V → Bytes × Bytes → BTreeMap K V
  load_entry prefix m (key, value) =
      if leb (length key) (length prefix) then m else elim (kc.decode (drop (length prefix) key)) [
        | none ↦ m
        | some k ↦ elim (vc.decode value) [ none ↦ m | some v ↦ Map.insert m k v ]
      ]

  unfoldable pub load_entries : Bytes → BTreeMap K V → List (Bytes × Bytes) → BTreeMap K V
  load_entries prefix m [] = m
  load_entries prefix m (e ∷ es) = load_entries prefix (load_entry prefix m e) es

module _ {K : Type 0} ⦃kc : Codec K Always⦄ where
  -- The key under which an entry stands.
  unfoldable pub entry_key : Bytes → K → Bytes
  entry_key prefix k = prefix ++ kc.encode k
