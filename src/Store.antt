-- ===== src/Store.antt =====
-- The trait `KeyValueStore` of src/support.rs over a state of its own, and what a store that never
-- fails promises.
pub mod Memory
pub mod Rocks
use Prim.Native.String.{String}
use rust_state_machine.Shared.{◌≡◌, Option, none, some, List, Result, true, All, if◌then◌else◌}
use rust_state_machine.Shared.Order.{Bytes, bytes_ord, same, starts_with}
use rust_state_machine.BTreeMap as Map

pub record KeyValueStore (S : Type 0) : Type 0 where
  pub get : S → Bytes → Option Bytes
  pub put : S → Bytes → Bytes → S × Result (Unit {0}) String
  pub delete : S → Bytes → S × Result (Unit {0}) String
  pub scan_prefix : S → Bytes → List (Bytes × Bytes)

-- Each write takes effect, and a scan lists the entries under a prefix.
pub record IsReliable {S : Type 0} (kv : KeyValueStore S) : Type 0 where
  pub get-put :
      (s : S) (k v j : Bytes)
      → kv.get (kv.put s k v).0 j ≡ (if same j k then some v else kv.get s j)
  pub get-delete :
      (s : S) (k j : Bytes) → kv.get (kv.delete s k).0 j ≡ (if same j k then none else kv.get s j)
  pub scan_sound :
      (s : S) (prefix : Bytes)
      → All
          (λ e. (kv.get s e.0 ≡ some e.1) × (starts_with e.0 prefix ≡ true))
          (kv.scan_prefix s prefix)
  pub scan_complete :
      (s : S) (prefix k : Bytes) {v : Bytes}
      → kv.get s k ≡ some v
      → starts_with k prefix ≡ true
      → Map.get (kv.scan_prefix s prefix) k ≡ some v
