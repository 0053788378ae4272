-- ===== src/Cli.antt =====
-- The command line of src/main.rs and the database path of src/support.rs. The arguments come parsed
-- from clap; HTTP, the file system and the start of a node are parameters; a panic is `none`.
pub mod Text
pub mod Decimal
pub mod Submit
pub mod Demo
pub mod Commands
