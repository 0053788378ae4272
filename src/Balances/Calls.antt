-- ===== src/Balances/Calls.antt =====
-- The enum that `#[macros::call]` generates for src/balances.rs.
use rust_state_machine.Shared.{ℕ}

pub data Call (K : Type 0) : Type 0 where
  transfer : K → ℕ → Call K
