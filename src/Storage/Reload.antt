-- ===== src/Storage/Reload.antt =====
-- The stored entries of a map: what it is for a store to be in step with them, and the scan of them.
use rust_state_machine.Shared.{
  not, sym, ◌∙◌, Option-cases, All-imp, Bool-cases, ◌≡◌, inl, inr, true, some, List, [], arith, All,
}
use rust_state_machine.Shared.Order.{Ord, Bytes, bytes_ord, same, same_iff, starts_with}
use rust_state_machine.Codec.{Codec, Always}
use rust_state_machine.Store.{KeyValueStore, IsReliable}
use rust_state_machine.Storage.{load_entries, entry_key}
use rust_state_machine.BTreeMap as Map
use rust_state_machine.BTreeMap.{BTreeMap}
use rust_state_machine.BTreeMap.Order.{IsSorted, eq_of_get}
use rust_state_machine.Storage.Load.{
  same-entry_key, entry_key-starts_with, Stands, load_agrees, load_finds, load-IsSorted,
}

module _ {K V S : Type 0} (Fits : V → Type 0) ⦃o : Ord K⦄ ⦃kc : Codec K Always⦄ ⦃vc : Codec V Fits⦄
    ⦃kv : KeyValueStore S⦄ where
  -- The entries of the store under a prefix are those of the map.
  pub record IsStored (p : Bytes) (m : BTreeMap K V) (s : S) : Type 0 where
    pub covers :
        (k : K) (v : V) → Map.get m k ≡ some v → kv.get s (entry_key p k) ≡ some (vc.encode v)
    pub exact :
        (j w : Bytes)
        → kv.get s j ≡ some w
        → starts_with j p ≡ true
        → (k : K) × (v : V) × (j ≡ entry_key p k)
          × (w ≡ vc.encode v)
          × Fits v
          × (Map.get m k ≡ some v)

  -- A map in order, in step with a reliable store, is what start-up reads back.
  pub reload :
      IsReliable kv
      → (p : Bytes) (m : BTreeMap K V) (s : S) → IsSorted m
      → IsStored p m s
      → load_entries Fits p [] (kv.scan_prefix s p) ≡ m
  reload r p m s sorted h = eq_of_get loaded m (load-IsSorted Fits p es [] tt) sorted agrees
    where
      es : List (Bytes × Bytes)
      es = kv.scan_prefix s p

      loaded : BTreeMap K V
      loaded = load_entries Fits p [] es

      stands : All (Stands Fits p m) es
      stands = All-imp (λ e g. h.exact e.0 e.1 g.0 g.1) es (r.scan_sound s p)

      agrees : (q : K) → Map.get loaded q ≡ Map.get m q
      agrees q = elim (Option-cases (Map.get m q)) [
        | inr (v, e) ↦ rw e (
            load_finds Fits p m es [] q v stands e
              (r.scan_complete s p (entry_key p q) (h.covers q v e) (entry_key-starts_with p q)))
        | inl e ↦ elim (Option-cases (Map.get loaded q)) [
          | inl n ↦ cc
          | inr (v, g) ↦ cc (load_agrees Fits p m es [] q v stands (λ x. unfold Map.get in cc) g)
        ]
      ]

  -- Writing one entry keeps the map and the store in step.
  pub put-IsStored :
      IsReliable kv
      → (p : Bytes) (m : BTreeMap K V) (s : S) (k : K) (v : V) → Fits v
      → IsStored p m s
      → IsStored p (Map.insert m k v) (kv.put s (entry_key p k) (vc.encode v)).0
  put-IsStored r p m s k v f h = record {
    covers = λ j u e. ground (
      arith,
      r.get-put s (entry_key p k) (vc.encode v) (entry_key p j),
      same-entry_key p j k,
      Map.get-insert m k j v,
      h.covers j u,
    );
    exact = λ j w e sw. elim (Bool-cases (same j (entry_key p k))) [
      | inl hit ↦ (
        k,
        v,
        (same_iff j (entry_key p k)).0 hit,
        ground (arith, r.get-put s (entry_key p k) (vc.encode v) j),
        f,
        ground (arith, Map.get-insert m k k v, same_iff k k),
      )
      | inr miss ↦
          let t = h.exact j w (ground (arith, r.get-put s (entry_key p k) (vc.encode v) j)) sw in
          (
            t.0,
            t.1,
            t.2,
            t.3,
            t.4,
            ground (arith, Map.get-insert m k t.0 v, same-entry_key p t.0 k),
          )
    ];
  }

  -- Removing one entry keeps the map and the store in step.
  pub delete-IsStored :
      IsReliable kv
      → (p : Bytes) (m : BTreeMap K V) (s : S) (k : K) → IsStored p m s
      → IsStored p (Map.remove m k) (kv.delete s (entry_key p k)).0
  delete-IsStored r p m s k h = record {
    covers = λ j u e. ground (
      arith,
      r.get-delete s (entry_key p k) (entry_key p j),
      same-entry_key p j k,
      Map.get-remove m k j,
      h.covers j u,
    );
    exact = λ j w e sw.
        let t = h.exact j w (ground (arith, r.get-delete s (entry_key p k) j)) sw in
        (
          t.0,
          t.1,
          t.2,
          t.3,
          t.4,
          ground (
            arith,
            Map.get-remove m k t.0,
            same-entry_key p t.0 k,
            r.get-delete s (entry_key p k) j,
          ),
        );
  }

  -- What leaves the entries under the prefix alone keeps them in step.
  pub IsStored-frame :
      (p : Bytes) (m : BTreeMap K V) (s s' : S)
      → ((j : Bytes) → starts_with j p ≡ true → kv.get s' j ≡ kv.get s j)
      → IsStored p m s
      → IsStored p m s'
  IsStored-frame p m s s' f h = record {
    covers = λ k v e. f (entry_key p k) (entry_key-starts_with p k) ∙ h.covers k v e;
    exact = λ j w e sw. h.exact j w (sym (f j sw) ∙ e) sw;
  }

module _ {S : Type 0} ⦃kv : KeyValueStore S⦄ where
  -- A write or a removal on one side of a prefix does not change what stands on the other.
  pub get-put_elsewhere :
      IsReliable kv
      → (p : Bytes) (s : S) (j w i : Bytes) → starts_with j p ≡ not (starts_with i p)
      → kv.get (kv.put s j w).0 i ≡ kv.get s i
  get-put_elsewhere r p s j w i h = ground (arith, r.get-put s j w i, same_iff i j)

  pub get-delete_elsewhere :
      IsReliable kv
      → (p : Bytes) (s : S) (j i : Bytes) → starts_with j p ≡ not (starts_with i p)
      → kv.get (kv.delete s j).0 i ≡ kv.get s i
  get-delete_elsewhere r p s j i h = ground (arith, r.get-delete s j i, same_iff i j)
