-- ===== src/Codec.antt =====
-- What the program relies on of `parity_scale_codec`: a value that fits its type is encoded into at
-- least one byte, and decoding reads it back.
use rust_state_machine.Shared.{◌≡◌, ◌≢◌, Option, some, []}
use rust_state_machine.Shared.Order.{Bytes}

pub record Codec {ℓ} (A : Type ℓ) (Fits : A → Type 0) : Type ℓ where
  pub encode : A → Bytes
  pub decode : Bytes → Option A
  pub decode-encode : (a : A) → Fits a → decode (encode a) ≡ some a
  pub encode-ne_nil : (a : A) → Fits a → encode a ≢ []

abbrev pub Always {ℓ} : {A : Type ℓ} → A → Type 0
Always a = Unit
