-- ===== src/Cli/Commands.antt =====
-- The commands of src/main.rs, and the path of the database (src/support.rs). Opening the database, the
-- file system and the parsing of an address are parameters; clap has parsed the arguments.
use rust_state_machine.Shared.{
  ℕ, Bool, Option, none, some, ◌>>=◌, List, [], ◌∷◌, ◌++◌, IsU32, IsU128, Result, ok, err,
  unwrap_or, if◌then◌else◌,
}
use rust_state_machine.Shared.Order.{Bytes, Ord, bytes_ord}
use rust_state_machine.Codec.{Codec, Always}
use rust_state_machine.Store.{KeyValueStore}
use rust_state_machine.Storage.{codes}
use rust_state_machine.Extrinsic.{account_ord, AccountId32, Ed25519, PayloadCodec}
use rust_state_machine.Runtime.{Runtime, Extrinsic, Content, RuntimeCall, new}
use rust_state_machine.Node.Loop.Events
use rust_state_machine.Node.Loop.Events.{Node}
use rust_state_machine.Cli.Submit
use rust_state_machine.Cli.Submit.{Http, Submission}

pub data Commands : Type 0 where
  start : ℕ → Option Bytes → Option ℕ → Option Bytes → Commands
  state : Option Bytes → Commands
  reset : Option Bytes → Commands
  submit_transfer : Bytes → Bytes → ℕ → Option Bytes → Commands
  submit_claim : Bytes → Bytes → Option Bytes → Commands

-- `DB_PATH`, set once: a second time is a panic.
unfoldable pub init_db_path : Option Bytes → Bytes → Option (Option Bytes)
init_db_path none path = some (some path)
init_db_path (some old) path = none

unfoldable pub db_path : Option Bytes → Bytes
db_path set = unwrap_or set (codes "state.db")

-- The path that a process with this argument opens.
unfoldable pub opened_path : Option Bytes → Option Bytes
opened_path none = some (db_path none)
opened_path (some path) = do set ← init_db_path none path; some (db_path set)

pub record FileSystem (F : Type 0) : Type 0 where
  pub exists : F → Bytes → Bool
  pub remove_dir_all : F → Bytes → F × Result (Unit {0}) Bytes

-- What a reset prints.
pub data Line : Type 0 where
  failed : Bytes → Line
  deleted : Line
  nothing : Line

module _ {F : Type 0} (fs : FileSystem F) where
  -- A failure is printed, and then the deletion is printed all the same.
  unfoldable pub reset_database : Option Bytes → F → F × List Line
  reset_database argument f =
      let path = unwrap_or argument (codes "state.db") in
      if fs.exists f path
      then (let (f', r) = fs.remove_dir_all f path in
          (f', elim r [ ok _ ↦ [] | err e ↦ Line.failed e ∷ [] ] ++ (Line.deleted ∷ [])))
      else (f, Line.nothing ∷ [])

-- How a command ends.
pub data Outcome (PeerId W S F Addr : Type 0) : Type 0 where
  running : ℕ → Option Addr → Option ℕ → Node PeerId S → Outcome PeerId W S F Addr
  printed : Runtime → Outcome PeerId W S F Addr
  reset_done : F → List Line → Outcome PeerId W S F Addr
  submission : Submission W S → Outcome PeerId W S F Addr

module _ {S : Type 0} ⦃kv : KeyValueStore S⦄ ⦃account_codec : Codec AccountId32 Always⦄
    ⦃content_codec : Codec Content Always⦄ ⦃u32_codec : Codec ℕ IsU32⦄ ⦃u128_codec : Codec ℕ IsU128⦄
    ⦃dalek : Ed25519⦄ ⦃payload : PayloadCodec RuntimeCall⦄ (from_seed : Bytes → dalek.SigningKey)
    {PeerId : Type 0} ⦃o : Ord PeerId⦄ (my_id : PeerId) {W : Type 0} (http : Http W)
    (encode : Extrinsic → Bytes) {F : Type 0} (fs : FileSystem F) {Addr : Type 0}
    (parse_addr : Bytes → Option Addr) (open_store : F → Bytes → S) where
  unfoldable pub parse_peer : Option Bytes → Option (Option Addr)
  parse_peer none = some none
  parse_peer (some text) = do addr ← parse_addr text; some (some addr)

  -- The start of a node stands for its run: what it does next is up to its events.
  unfoldable pub main : Commands → F → W → Option (Outcome PeerId W S F Addr)
  main (Commands.start port peer rpc_port argument) f w = do
    path ← opened_path argument
    dial_addr ← parse_peer peer
    node ← Events.start my_id from_seed (open_store f path)
    some (Outcome.running port dial_addr rpc_port node)
  main (Commands.state argument) f w = do
    path ← opened_path argument
    some (Outcome.printed (new (open_store f path)))
  main (Commands.reset argument) f w =
      let (f', lines) = reset_database fs argument f in some (Outcome.reset_done f' lines)
  main (Commands.submit_transfer from to amount node) f w = do
    r ←
        Submit.submit_transfer from_seed http encode from to amount node w
          (open_store f (db_path none))
    some (Outcome.submission r)
  main (Commands.submit_claim account claim node) f w = do
    r ← Submit.submit_claim from_seed http encode account claim node w (open_store f (db_path none))
    some (Outcome.submission r)
