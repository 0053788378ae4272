-- ===== src/Storage/Load.antt =====
-- The keys under which entries stand in the store, and the scan at start-up entry by entry.
use rust_state_machine.Shared.{
  Bool-cases, ◌<◌, ◌≡◌, refl, ◌≢◌, inl, inr, ap, true, false, some, List, [], ◌∷◌, ◌++◌, arith,
  length, length-append, drop, leb, All, some_injective,
}
use rust_state_machine.Shared.Order.{
  Ord, Bytes, bytes_ord, same, same_iff, starts_with, starts_with-append,
}
use rust_state_machine.Codec.{Codec, Always}
use rust_state_machine.Storage.{load_entry, load_entries, entry_key}
use rust_state_machine.BTreeMap as Map
use rust_state_machine.BTreeMap.{BTreeMap}
use rust_state_machine.BTreeMap.Order.{IsSorted, insert-IsSorted}

drop-append : (p x : Bytes) → drop (length p) (p ++ x) ≡ x
drop-append [] x = refl
drop-append (b ∷ p) x = drop-append p x

append_cancel : (p x y : Bytes) → p ++ x ≡ p ++ y → x ≡ y
append_cancel p x y h = cc (drop-append p x, drop-append p y, ap (drop (length p)) h)

length_pos : (x : Bytes) → x ≢ [] → 0 < length x
length_pos [] h = absurd (h refl)
length_pos (b ∷ x) h = omega arith

module _ {K : Type 0} ⦃o : Ord K⦄ ⦃kc : Codec K Always⦄ where
  -- Two keys are stored in one place only if they are one key.
  entry_key-injective : (p : Bytes) (j k : K) → entry_key p j ≡ entry_key p k → j ≡ k
  unfolding entry_key
  entry_key-injective p j k h = some_injective (
      rw (kc.decode-encode j tt, kc.decode-encode k tt) at
        (ap kc.decode (append_cancel p (kc.encode j) (kc.encode k) h)))

  pub same-entry_key : (p : Bytes) (j k : K) → same (entry_key p j) (entry_key p k) ≡ same j k
  same-entry_key p j k =
      ground
        (arith, same_iff (entry_key p j) (entry_key p k), same_iff j k, entry_key-injective p j k)

  pub entry_key-starts_with : (p : Bytes) (k : K) → starts_with (entry_key p k) p ≡ true
  unfolding entry_key
  entry_key-starts_with p k = starts_with-append p (kc.encode k)

  short_key : (p : Bytes) (k : K) → leb (length (entry_key p k)) (length p) ≡ false
  unfolding entry_key
  short_key p k =
      ground
        (arith, length-append p (kc.encode k), length_pos (kc.encode k) (kc.encode-ne_nil k tt))

module _ {K V : Type 0} (Fits : V → Type 0) ⦃o : Ord K⦄ ⦃kc : Codec K Always⦄
    ⦃vc : Codec V Fits⦄ where
  -- An entry that stands for one of the map.
  abbrev pub Stands : Bytes → BTreeMap K V → Bytes × Bytes → Type 0
  Stands p m e =
      (k : K) × (v : V) × (e.0 ≡ entry_key p k)
      × (e.1 ≡ vc.encode v)
      × Fits v
      × (Map.get m k ≡ some v)

  load_entry-encode :
      (p : Bytes) (acc : BTreeMap K V) (k : K) (v : V)
      → Fits v
      → load_entry Fits p acc (entry_key p k, vc.encode v) ≡ Map.insert acc k v
  unfolding load_entry
  load_entry-encode p acc k v f =
      rw (short_key p k, load_entry)
        (unfold entry_key in
          rw (drop-append p (kc.encode k), kc.decode-encode k tt, vc.decode-encode v f, load_entry))

  load_entry-Stands :
      (p : Bytes) (m acc : BTreeMap K V) (e : Bytes × Bytes) (s : Stands p m e)
      → load_entry Fits p acc e ≡ Map.insert acc s.0 s.1
  load_entry-Stands p m acc (j, w) (k, v, ej, ew, f, g) =
      rw (ej, ew) (load_entry-encode p acc k v f)

  -- What is loaded of such entries is in the map.
  pub load_agrees :
      (p : Bytes) (m : BTreeMap K V) (es : List (Bytes × Bytes)) (acc : BTreeMap K V) (q : K)
      (v : V)
      → All (Stands p m) es
      → (Map.get acc q ≡ some v → Map.get m q ≡ some v)
      → Map.get (load_entries Fits p acc es) q ≡ some v
      → Map.get m q ≡ some v
  unfolding load_entries
  load_agrees p m [] acc q v h a g = a g
  load_agrees p m (e ∷ es) acc q v h a g =
      load_agrees p m es (load_entry Fits p acc e) q v h.1
        (λ x. ground (
          arith,
          x,
          load_entry-Stands p m acc e h.0,
          Map.get-insert acc (h.0).0 q (h.0).1,
          same_iff q (h.0).0,
          a,
        ))
        g

  load_keeps :
      (p : Bytes) (m : BTreeMap K V) (es : List (Bytes × Bytes)) (acc : BTreeMap K V) (q : K)
      (v : V)
      → All (Stands p m) es
      → Map.get m q ≡ some v
      → Map.get acc q ≡ some v
      → Map.get (load_entries Fits p acc es) q ≡ some v
  unfolding load_entries
  load_keeps p m [] acc q v h e a = a
  load_keeps p m (x ∷ es) acc q v h e a = load_keeps p m es (load_entry Fits p acc x) q v h.1 e (
      ground (
        arith,
        load_entry-Stands p m acc x h.0,
        Map.get-insert acc (h.0).0 q (h.0).1,
        same_iff q (h.0).0,
      ))

  load_here :
      (p : Bytes) (m acc : BTreeMap K V) (e : Bytes × Bytes) (q : K) (v : V) (s : Stands p m e)
      → same (entry_key p q) e.0 ≡ true
      → Map.get m q ≡ some v
      → Map.get (load_entry Fits p acc e) q ≡ some v
  load_here p m acc e q v s here g = ground (
    arith,
    load_entry-Stands p m acc e s,
    Map.get-insert acc s.0 q s.1,
    same_iff q s.0,
    same_iff (entry_key p q) e.0,
    entry_key-injective p q s.0,
  )

  pub load_finds :
      (p : Bytes) (m : BTreeMap K V) (es : List (Bytes × Bytes)) (acc : BTreeMap K V) (q : K)
      (v : V)
      → All (Stands p m) es
      → Map.get m q ≡ some v
      → Map.get es (entry_key p q) ≡ some (vc.encode v)
      → Map.get (load_entries Fits p acc es) q ≡ some v
  unfolding load_entries Map.get
  load_finds p m [] acc q v h e l = cc
  load_finds p m (x ∷ es) acc q v h e l = elim (Bool-cases (same (entry_key p q) x.0)) [
    | inl here ↦
        load_keeps p m es (load_entry Fits p acc x) q v h.1 e (load_here p m acc x q v h.0 here e)
    | inr there ↦ load_finds p m es (load_entry Fits p acc x) q v h.1 e (ground arith)
  ]

  load_entry-IsSorted :
      (p : Bytes) (acc : BTreeMap K V) (e : Bytes × Bytes)
      → IsSorted acc
      → IsSorted (load_entry Fits p acc e)
  unfolding load_entry
  load_entry-IsSorted p acc (j, w) h = grind (arith, insert-IsSorted)

  pub load-IsSorted :
      (p : Bytes) (es : List (Bytes × Bytes)) (acc : BTreeMap K V)
      → IsSorted acc
      → IsSorted (load_entries Fits p acc es)
  unfolding load_entries
  load-IsSorted p [] acc h = h
  load-IsSorted p (e ∷ es) acc h =
      load-IsSorted p es (load_entry Fits p acc e) (load_entry-IsSorted p acc e h)
