-- ===== src/Store/Rocks.antt =====
-- `RocksDbStore` of src/support.rs over a parameter for rocksdb: its calls may fail, and its iterator
-- yields an entry or an error at a time.
use Prim.Native.String.{String}
use rust_state_machine.Shared.{
  ◌≡◌, refl, Option, none, List, [], ◌∷◌, ok, err, Result, map, All-imp, ap, sym, ◌∙◌, filter_by,
}
use rust_state_machine.Shared.Order.{Bytes, bytes_ord, starts_with}
use rust_state_machine.BTreeMap as Map
use rust_state_machine.BTreeMap.{BTreeMap}
use rust_state_machine.BTreeMap.Order.{IsSorted}
use rust_state_machine.Store.{KeyValueStore, IsReliable}
use rust_state_machine.Store.Memory.{scan_found, scan_finds}

pub record RocksDb (D : Type 0) : Type 0 where
  pub get : D → Bytes → Result (Option Bytes) String
  pub put : D → Bytes → Bytes → D × Result (Unit {0}) String
  pub delete : D → Bytes → D × Result (Unit {0}) String
  pub iterator : D → List (Result (Bytes × Bytes) String)

-- What is documented of a database on a disk that does not fail: writes take effect, and the iterator
-- visits the entries in the order of the keys.
pub record IsWorking {D : Type 0} (db : RocksDb D) : Type 0 where
  pub contents : D → BTreeMap Bytes Bytes
  pub sorted : (d : D) → IsSorted (contents d)
  pub gets : (d : D) (k : Bytes) → db.get d k ≡ ok (Map.get (contents d) k)
  pub puts : (d : D) (k v : Bytes) → contents (db.put d k v).0 ≡ Map.insert (contents d) k v
  pub deletes : (d : D) (k : Bytes) → contents (db.delete d k).0 ≡ Map.remove (contents d) k
  pub iterates : (d : D) → db.iterator d ≡ map ok (contents d)

-- `filter_map(|res| res.ok())`
unfoldable pub keep_ok {ℓ κ} : {A : Type ℓ} {E : Type κ} → List (Result A E) → List A
keep_ok [] = []
keep_ok (ok a ∷ rs) = a ∷ keep_ok rs
keep_ok (err e ∷ rs) = keep_ok rs

module _ {D : Type 0} (db : RocksDb D) where
  unfoldable pub rocks_get : D → Bytes → Option Bytes
  rocks_get d k = elim (db.get d k) [ ok v ↦ v | err e ↦ none ]

  unfoldable pub rocks_scan_prefix : D → Bytes → List (Bytes × Bytes)
  rocks_scan_prefix d prefix = filter_by (λ e. starts_with e.0 prefix) (keep_ok (db.iterator d))

  unfoldable pub rocks_store : KeyValueStore D
  unfolding rocks_get rocks_scan_prefix
  rocks_store = record {
    get = rocks_get;
    put = db.put;
    delete = db.delete;
    scan_prefix = rocks_scan_prefix;
  }

keep_ok-map :
    {A : Type 0} (E : Type 0) (xs : List A) → let f : A → Result A E = ok in keep_ok (map f xs) ≡ xs
unfolding keep_ok
keep_ok-map E [] = refl
keep_ok-map E (x ∷ xs) = ap (λ ys. x ∷ ys) (keep_ok-map E xs)

module _ {D : Type 0} (db : RocksDb D) (w : IsWorking db) where
  get-contents : (d : D) (k : Bytes) → rocks_get db d k ≡ Map.get (w.contents d) k
  unfolding rocks_get
  get-contents d k = rw (rocks_get, w.gets d k) refl

  scan-contents :
      (d : D) (prefix : Bytes)
      → rocks_scan_prefix db d prefix ≡ filter_by (λ e. starts_with e.0 prefix) (w.contents d)
  unfolding rocks_scan_prefix
  scan-contents d prefix =
      rw (rocks_scan_prefix, w.iterates d, keep_ok-map String (w.contents d)) refl

-- Over a database that works, the store on disk keeps the promises of a reliable store.
pub rocks_store-IsReliable :
    {D : Type 0} (db : RocksDb D) → IsWorking db → IsReliable (rocks_store db)
unfolding rocks_store
rocks_store-IsReliable db w = record {
  get-put = λ d k v j.
      rw (get-contents db w (db.put d k v).0 j, get-contents db w d j, w.puts d k v)
        (Map.get-insert (w.contents d) k j v);
  get-delete = λ d k j.
      rw (get-contents db w (db.delete d k).0 j, get-contents db w d j, w.deletes d k)
        (Map.get-remove (w.contents d) k j);
  scan_sound = λ d prefix. rw (scan-contents db w d prefix) (
      All-imp (λ e h. (get-contents db w d e.0 ∙ h.0, h.1))
        (filter_by (λ (e : Bytes × Bytes). starts_with e.0 prefix) (w.contents d))
        (scan_found (w.contents d) prefix (w.sorted d)));
  scan_complete = λ d prefix k h p.
      rw (scan-contents db w d prefix)
        (scan_finds (w.contents d) prefix k (sym (get-contents db w d k) ∙ h) p);
}
