-- ===== src/Runtime/Sound.antt =====
-- What a node can rely on between two blocks: a valid runtime whose store holds the block number,
-- the nonces and the balances, and no claim that is not in memory (`Runtime::new`,
-- macros/src/runtime/expand.rs).
use rust_state_machine.Shared.{
  ℕ, ◌≡◌, refl, sym, arith, Option, none, some, List, [], ◌∷◌, All, true, false, IsU32, IsU128, ◌+◌,
  ◌≤◌, if◌then◌else◌, ◌==◌,
}
use rust_state_machine.Shared.Order.{Bytes, bytes_ord, starts_with}
use rust_state_machine.Codec.{Codec, Always}
use rust_state_machine.Store.{KeyValueStore, IsReliable}
use rust_state_machine.Dispatch.{DispatchResult}
use rust_state_machine.Extrinsic.{AccountId32, account_ord, Ed25519, PayloadCodec}
use rust_state_machine.BTreeMap as Map
use rust_state_machine.BTreeMap.{BTreeMap}
use rust_state_machine.System
use rust_state_machine.Balances
use rust_state_machine.ProofOfExistence
use rust_state_machine.ProofOfExistence.Saved.{Saved, Saved-frame, new-Saved}
use rust_state_machine.Storage.{load_entries}
use rust_state_machine.Storage.Reload.{IsStored}
use rust_state_machine.Runtime.{Runtime, RuntimeBlock, Content, RuntimeCall, new, execute_block}
use rust_state_machine.Runtime.Nonces.{Chain, here, next}
use rust_state_machine.Runtime.Blocks.{execute_block_result}
use rust_state_machine.Runtime.Valid.{IsValid}
use rust_state_machine.Runtime.Restart.{InStep, execute_block-InStep, system_not_balance}
use rust_state_machine.Runtime.RestartClaims.{execute_block-Saved, poe_not_balance}

abbrev pub IsEmpty : {S : Type 0} ⦃kv : KeyValueStore S⦄ → S → Type 0
IsEmpty ⦃kv⦄ s = (j : Bytes) → kv.get s j ≡ none

-- The runtime of a chain that has not begun.
abbrev pub blank : Runtime
blank = record {
  system = record { block_number = 0; nonce = [] };
  balances = record { balances = [] };
  proof_of_existence = record { claims = [] };
}

module _ {S : Type 0} ⦃kv : KeyValueStore S⦄ where
  entries-of_empty :
      (s : S) (p : Bytes) (es : List (Bytes × Bytes))
      → IsEmpty s
      → All (λ e. (kv.get s e.0 ≡ some e.1) × (starts_with e.0 p ≡ true)) es
      → es ≡ []
  entries-of_empty s p [] h a = refl
  entries-of_empty s p (e ∷ es) h a = absurd (cc (h e.0, (a.0).0))

  nothing_stored :
      {K V : Type 0} (Fits : V → Type 0) ⦃kc : Codec K Always⦄ ⦃vc : Codec V Fits⦄
      ⦃o : rust_state_machine.Shared.Order.Ord K⦄ (p : Bytes) (s : S)
      → IsEmpty s
      → IsStored {K = K} {V = V} Fits p [] s
  unfolding Map.get
  nothing_stored Fits p s h = record { covers = λ k v e. cc; exact = λ j w g e. cc (h j) }

module _ {S : Type 0} ⦃kv : KeyValueStore S⦄ ⦃account_codec : Codec AccountId32 Always⦄
    ⦃content_codec : Codec Content Always⦄ ⦃u32_codec : Codec ℕ IsU32⦄
    ⦃u128_codec : Codec ℕ IsU128⦄ where
  pub record IsSound (rt : Runtime) (s : S) : Type 0 where
    pub valid : IsValid rt
    pub in_step : InStep rt s
    pub saved : Saved rt.proof_of_existence s

  -- On an empty store the runtime starts blank.
  pub new-of_empty : IsReliable kv → (s : S) → IsEmpty s → new s ≡ blank
  unfolding new System.new Balances.new ProofOfExistence.new System.load_block_number load_entries
  new-of_empty r s h = simp (
    h System.prefix_block_number,
    entries-of_empty s System.prefix_nonce (kv.scan_prefix s System.prefix_nonce) h
        (r.scan_sound s System.prefix_nonce),
    entries-of_empty s Balances.prefix_balance (kv.scan_prefix s Balances.prefix_balance) h
        (r.scan_sound s Balances.prefix_balance),
    entries-of_empty s ProofOfExistence.prefix_poe (kv.scan_prefix s ProofOfExistence.prefix_poe) h
        (r.scan_sound s ProofOfExistence.prefix_poe),
  )

  pub blank-IsSound : (s : S) → IsEmpty s → IsSound blank s
  unfolding System.load_block_number
  blank-IsSound s h = record {
    valid = record {
      system = record { block_number_fits = omega arith; sorted = tt; nonces_fit = tt };
      balances = record { sorted = tt; balances_fit = tt };
      claims = tt;
    };
    in_step = record {
      system = record {
        number = rw (h System.prefix_block_number) refl;
        nonces = nothing_stored IsU32 System.prefix_nonce s h;
      };
      balances = nothing_stored IsU128 Balances.prefix_balance s h;
    };
    saved = record {
      kept = [];
      sorted = tt;
      stored = nothing_stored {V = AccountId32} Always ProofOfExistence.prefix_poe s h;
      agrees = λ c owner e. e;
    };
  }

  -- What a restart finds: all but the claims that were not kept.
  pub new-IsSound :
      IsReliable kv
      → (rt : Runtime) (s : S) (h : IsSound rt s)
      → new s ≡ record rt { proof_of_existence = record { claims = h.saved.kept } }
  unfolding new
  new-IsSound r rt s h =
      rw
        (
          System.InStep.new-InStep r rt.system s h.valid.system h.in_step.system,
          Balances.InStep.new-InStep r rt.balances s h.valid.balances h.in_step.balances,
          new-Saved r rt.proof_of_existence s h.saved,
        )
        refl

  -- And that is sound again.
  pub restarted-IsSound : IsReliable kv → (rt : Runtime) (s : S) → IsSound rt s → IsSound (new s) s
  restarted-IsSound r rt s h = rw (new-IsSound r rt s h) (record {
    valid = record {
      system = h.valid.system;
      balances = h.valid.balances;
      claims = h.saved.sorted;
    };
    in_step = record { system = h.in_step.system; balances = h.in_step.balances };
    saved = record {
      kept = h.saved.kept;
      sorted = h.saved.sorted;
      stored = h.saved.stored;
      agrees = λ c owner e. e;
    };
  })

  pub set_balance-IsSound :
      IsReliable kv
      → (rt : Runtime) (s : S) (who : AccountId32) (amount : ℕ) → IsU128 amount
      → IsSound rt s
      → let t = Balances.set_balance rt.balances s who amount in
        IsSound (record rt { balances = t.0 }) t.1
  set_balance-IsSound r rt s who amount f h =
      let s' = (Balances.set_balance rt.balances s who amount).1 in
      let elsewhere = λ (j : Bytes) (e : starts_with j Balances.prefix_balance ≡ false).
        Balances.InStep.set_balance_elsewhere r rt.balances s who amount j e in
      record {
        valid = record {
          system = h.valid.system;
          balances =
              Balances.Transfer.set_balance-IsValid rt.balances s who amount h.valid.balances f;
          claims = h.valid.claims;
        };
        in_step = record {
          system =
              System.InStep.InStep-frame rt.system s s'
                (λ j e. elsewhere j (system_not_balance j e)) h.in_step.system;
          balances =
              Balances.InStep.set_balance-InStep r rt.balances s who amount f h.in_step.balances;
        };
        saved =
            Saved-frame rt.proof_of_existence s s' (λ j e. elsewhere j (poe_not_balance j e))
              h.saved;
      }

module _ {S : Type 0} ⦃kv : KeyValueStore S⦄ ⦃account_codec : Codec AccountId32 Always⦄
    ⦃content_codec : Codec Content Always⦄ ⦃u32_codec : Codec ℕ IsU32⦄ ⦃u128_codec : Codec ℕ IsU128⦄
    ⦃dalek : Ed25519⦄ ⦃payload : PayloadCodec RuntimeCall⦄ where
  pub execute_block-IsSound :
      IsReliable kv
      → (rt : Runtime) (s : S) (block : RuntimeBlock) {q : Runtime × S × DispatchResult}
      → IsSound rt s
      → execute_block rt s block ≡ some q
      → IsSound q.0 q.1
  execute_block-IsSound r rt s block h e =
      let (v, i) = execute_block-InStep r rt s block h.valid h.in_step e in
      record { valid = v; in_step = i; saved = execute_block-Saved r rt s block h.saved e }

  pub Chain-IsSound :
      IsReliable kv
      → {rt : Runtime} {s : S} {rt' : Runtime} {s' : S} → IsSound rt s
      → Chain rt s rt' s'
      → IsSound rt' s'
  Chain-IsSound r h here = h
  Chain-IsSound r h (next c block e) = execute_block-IsSound r _ _ block (Chain-IsSound r h c) e

  pub Chain-block_number :
      {rt : Runtime} {s : S} {rt' : Runtime} {s' : S}
      → Chain rt s rt' s'
      → rt.system.block_number ≤ rt'.system.block_number
  Chain-block_number here = omega arith
  Chain-block_number (next c block e) =
      omega (arith, Chain-block_number c, (execute_block_result _ _ block e).0)
