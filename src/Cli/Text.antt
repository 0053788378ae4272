-- ===== src/Cli/Text.antt =====
-- Texts of src/main.rs, as their bytes: names of accounts, hex digits and addresses.
use rust_state_machine.Shared.{
  ℕ, ◌+◌, ◌/◌, ◌%◌, ◌&&◌, Option, none, some, [], ◌∷◌, ◌++◌, map, ltb, leb, if◌then◌else◌,
}
use rust_state_machine.Shared.Order.{Bytes, bytes_ord, same}
use rust_state_machine.Storage.{codes}
use rust_state_machine.Genesis.{AccountKeyring}

-- `to_lowercase` on one byte. Letters beyond ASCII make no difference to a comparison with the three
-- names: the lower case of none of them is a letter of a name.
unfoldable pub lowercase_byte : ℕ → ℕ
lowercase_byte c = if leb b'A' c && leb c b'Z' then c + 32 else c

unfoldable pub to_lowercase : Bytes → Bytes
to_lowercase name = map lowercase_byte name

unfoldable pub from_name : Bytes → Option AccountKeyring
from_name name =
    let lower = to_lowercase name in
    if same lower (codes "alice")
    then some AccountKeyring.alice
    else if same lower (codes "bob")
    then some AccountKeyring.bob
    else if same lower (codes "charlie")
    then some AccountKeyring.charlie
    else none

-- `format!("{b:02x}")` on a digit.
unfoldable pub hex_digit : ℕ → ℕ
hex_digit d = if ltb d 10 then d + b'0' else d + 87

unfoldable pub hex_text : Bytes → Bytes
hex_text [] = []
hex_text (b ∷ bytes) = hex_digit (b / 16) ∷ hex_digit (b % 16) ∷ hex_text bytes

unfoldable pub nonce_url : Bytes → Bytes → Bytes
nonce_url url account_hex = url ++ (codes "/nonce/" ++ account_hex)

unfoldable pub submit_url : Bytes → Bytes
submit_url url = url ++ codes "/submit"
