-- ===== src/Macros.antt =====
-- The attribute macros of macros/src: `#[macros::call]` and `#[macros::runtime]`. The syntax trees of
-- syn are kept as far as the macros look into them; what they generate is a record of the parts that
-- the `quote!` blocks fill in. A panic of a macro is `none`.
pub mod Syntax
pub mod Call
pub mod Entry
pub mod Items
