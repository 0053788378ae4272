-- ===== src/Store/Memory.antt =====
-- `MemStore` of src/support.rs: the store of the unit tests, a `BTreeMap` whose writes never fail.
use Prim.Native.String.{String}
use Prim.Native.Nat.Ordering.{lt}
use rust_state_machine.Shared.{
  Bool-cases, inl, inr, All-zip, All-filter_by, ◌≡◌, some, List, [], ◌∷◌, true, arith, ok, Result,
  All, All-imp, filter_by,
}
use rust_state_machine.Shared.Order.{
  Bytes, bytes_ord, starts_with, cmp_bytes, cmp_bytes_self, eq_of_cmp_bytes, cmp_bytes-reversed,
}
use rust_state_machine.BTreeMap as Map
use rust_state_machine.BTreeMap.{BTreeMap}
use rust_state_machine.BTreeMap.Order.{IsSorted, insert-IsSorted, remove-IsSorted}
use rust_state_machine.Store.{KeyValueStore, IsReliable}

pub record MemStore : Type 0 where
  pub entries : BTreeMap Bytes Bytes
  pub sorted : IsSorted entries

mem_put : MemStore → Bytes → Bytes → MemStore × Result (Unit {0}) String
mem_put m k v = (
  record { entries = Map.insert m.entries k v; sorted = insert-IsSorted m.entries k v m.sorted },
  ok tt,
)

mem_delete : MemStore → Bytes → MemStore × Result (Unit {0}) String
mem_delete m k = (
  record { entries = Map.remove m.entries k; sorted = remove-IsSorted m.entries k m.sorted },
  ok tt,
)

mem_scan_prefix : MemStore → Bytes → List (Bytes × Bytes)
mem_scan_prefix m prefix = filter_by (λ e. starts_with e.0 prefix) m.entries

instance unfoldable pub mem_store : KeyValueStore MemStore
unfolding mem_put mem_delete mem_scan_prefix
mem_store = record {
  get = λ m k. Map.get m.entries k;
  put = mem_put;
  delete = mem_delete;
  scan_prefix = mem_scan_prefix;
}

abbrev pub IsEntry : BTreeMap Bytes Bytes → Bytes → Bytes × Bytes → Type 0
IsEntry m prefix e = (Map.get m e.0 ≡ some e.1) × (starts_with e.0 prefix ≡ true)

-- An entry above the head is found behind it.
IsEntry-cons :
    (k v : Bytes) (m : BTreeMap Bytes Bytes) (prefix : Bytes) (e : Bytes × Bytes)
    → IsEntry m prefix e × (cmp_bytes k e.0 ≡ lt)
    → IsEntry ((k, v) ∷ m) prefix e
unfolding Map.get
IsEntry-cons k v m prefix e h = ground (arith, cmp_bytes-reversed k e.0)

pub scan_found :
    (m : BTreeMap Bytes Bytes) (prefix : Bytes)
    → IsSorted m
    → All (IsEntry m prefix) (filter_by (λ e. starts_with e.0 prefix) m)
scan_found [] prefix h = tt
scan_found ((k, v) ∷ m) prefix h =
    let l = filter_by (λ (e : Bytes × Bytes). starts_with e.0 prefix) m in
    let above = All-filter_by (λ e. cmp_bytes k e.0 ≡ lt) (λ e. starts_with e.0 prefix) m h.0 in
    let both =
      All-zip (IsEntry m prefix) (λ e. cmp_bytes k e.0 ≡ lt) l (scan_found m prefix h.1) above in
    let later = All-imp (IsEntry-cons k v m prefix) l both in
    elim (Bool-cases (starts_with k prefix)) [
      | inl fits ↦ rw fits ((unfold Map.get in rw (cmp_bytes_self k, Map.get), fits), later)
      | inr other ↦ rw other later
    ]

pub scan_finds :
    (m : BTreeMap Bytes Bytes) (prefix k : Bytes) {v : Bytes}
    → Map.get m k ≡ some v
    → starts_with k prefix ≡ true
    → Map.get (filter_by (λ e. starts_with e.0 prefix) m) k ≡ some v
unfolding Map.get
scan_finds [] prefix k {v} h p = cc
scan_finds ((j, w) ∷ m) prefix k {v} h p =
    ground (arith, scan_finds m prefix k {v = v}, eq_of_cmp_bytes k j)

-- The store of the tests keeps its promises.
pub mem_store-IsReliable : IsReliable mem_store
unfolding mem_store
mem_store-IsReliable = record {
  get-put = λ m k v j. Map.get-insert m.entries k j v;
  get-delete = λ m k j. Map.get-remove m.entries k j;
  scan_sound = λ m prefix. scan_found m.entries prefix m.sorted;
  scan_complete = λ m prefix k h p. scan_finds m.entries prefix k h p;
}
