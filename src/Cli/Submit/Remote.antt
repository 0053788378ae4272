-- ===== src/Cli/Submit/Remote.antt =====
-- A client (`submit_transfer` and `submit_claim` of src/main.rs with a node's address) against the
-- handlers of src/node.rs, with HTTP between them.
use rust_state_machine.Shared.{
  ℕ, ◌+◌, ◌≡◌, refl, ap, ◌∙◌, arith, Option, none, some, [], ◌∷◌, ◌++◌, length, filter_by,
  length-filter_by, IsU32, ok, err, Result, List,
}
use rust_state_machine.Shared.Order.{Bytes}
use rust_state_machine.Extrinsic.{account_ord, Ed25519, PayloadCodec, new_signed, verify}
use rust_state_machine.Extrinsic.Signing.{verify-new_signed}
use rust_state_machine.System
use rust_state_machine.Mempool
use rust_state_machine.Mempool.{Mempool}
use rust_state_machine.Runtime.{Runtime, Extrinsic, RuntimeCall}
use rust_state_machine.Genesis.{AccountKeyring, signing_key, public_key}
use rust_state_machine.Node.Production.Batch.{is_from}
use rust_state_machine.Node.Production.Blocks.{Consecutive}
use rust_state_machine.Node.Rpc.{
  BadRequest, Channels, submit_handler, nonce_handler, nonce_handler_runs_on, nonce_handler-pending,
}
use rust_state_machine.Node.Loop.{on_extrinsic}
use rust_state_machine.Network.{take_in}
use rust_state_machine.Cli.Text.{hex_text, nonce_url, submit_url}
use rust_state_machine.Cli.Decimal.{to_text, from_text-to_text}
use rust_state_machine.Cli.Submit.{Http, Report, submit_to_node}

-- What the handlers of a node share with its event loop; `received` is what waits on `tx_ext`.
pub record Server : Type 0 where
  pub runtime : Runtime
  pub mempool : Mempool Extrinsic
  pub channels : Channels

-- How the client sees what a handler returns: a text, if the status is one of success, and the status.
abbrev pub text_of : Result ℕ BadRequest → Option Bytes
text_of (ok n) = some (to_text n)
text_of (err _) = none

abbrev pub status_of : Result (Unit {0}) BadRequest → Report
status_of (ok _) = Report.submitted 202
status_of (err _) = Report.server_error 400

-- HTTP carries a request to the handler of its route, and back what the handler returns; nothing else
-- happens to the node until then.
pub record IsConnected {W : Type 0} (http : Http W) (hex_decode : Bytes → Option Bytes)
    (decode : Bytes → Option Extrinsic) (url : Bytes) (server : W → Server) : Type 0 where
  pub get_nonce :
      (w : W) (hex : Bytes)
      → http.get w (nonce_url url hex)
        ≡ (w, text_of (nonce_handler hex_decode (server w).runtime (server w).mempool hex))
  pub post_state :
      (w : W) (body : Bytes)
      → server (http.post w (submit_url url) body).0
        ≡ record (server w) { channels = (submit_handler decode (server w).channels body).0 }
  pub post_reply :
      (w : W) (body : Bytes)
      → (http.post w (submit_url url) body).1
        ≡ status_of (submit_handler decode (server w).channels body).1

submit_handler-decodes :
    (decode : Bytes → Option Extrinsic) (c : Channels) (raw : Bytes) (ext : Extrinsic)
    → decode raw ≡ some ext
    → submit_handler decode c raw ≡ (
      record { published = c.published ++ (raw ∷ []); received = c.received ++ (ext ∷ []) },
      ok tt,
    )
unfolding submit_handler
submit_handler-decodes decode c raw ext h = rw (submit_handler, h) refl

-- The loop takes up one extrinsic that waits, into a pool without a capacity.
take_in-one :
    (m : Mempool Extrinsic) (ext : Extrinsic) (waiting : List Extrinsic)
    → m.max_capacity ≡ none
    → waiting ≡ ext ∷ []
    → (take_in m waiting).pending ≡ m.pending ++ (ext ∷ [])
unfolding take_in on_extrinsic Mempool.submit
take_in-one m ext waiting uncapped e = rw (e, uncapped) refl

module _ ⦃dalek : Ed25519⦄ ⦃payload : PayloadCodec RuntimeCall⦄
    (from_seed : Bytes → dalek.SigningKey) {W : Type 0} (http : Http W) (encode : Extrinsic → Bytes)
    (decode : Bytes → Option Extrinsic) (hex_decode : Bytes → Option Bytes) where
  -- The extrinsic that a client makes, whatever waits for the loop.
  submission :
      (url : Bytes) (server : W → Server)
      → IsConnected http hex_decode decode url server
      → (who : AccountKeyring) (call : RuntimeCall) (w : W)
      → let account = public_key from_seed who in
        let pool = (server w).mempool in
        let n =
          System.nonce (server w).runtime.system account
          + length (filter_by (is_from account) pool.pending) in
        let ext = new_signed (signing_key from_seed who) n call in
        decode (encode ext) ≡ some ext
        → hex_decode (hex_text account.bytes) ≡ some account.bytes
        → length account.bytes ≡ 32
        → IsU32 (System.nonce (server w).runtime.system account + length pool.pending)
        → (w' : W) × (submit_to_node from_seed http encode who call url w
            ≡ some (w', Report.submitted 202))
          × (server w' ≡ record (server w) {
            channels = record {
              published = (server w).channels.published ++ (encode ext ∷ []);
              received = (server w).channels.received ++ (ext ∷ []);
            };
          })
  submission url server connected who call w back hex size room =
      let account = public_key from_seed who in
      let pool = (server w).mempool in
      let n =
        System.nonce (server w).runtime.system account
        + length (filter_by (is_from account) pool.pending) in
      let ext = new_signed (signing_key from_seed who) n call in
      let few = length-filter_by (is_from account) pool.pending in
      let answer =
        nonce_handler-pending hex_decode (server w).runtime pool (hex_text account.bytes) account
          hex size room in
      let sent : submit_to_node from_seed http encode who call url w
          ≡ some (http.post w (submit_url url) (encode ext)) =
        unfold submit_to_node in
        rw
          (
            connected.get_nonce w (hex_text account.bytes),
            answer,
            from_text-to_text n (omega (arith, few, room)),
          )
          refl in
      let handled = submit_handler-decodes decode (server w).channels (encode ext) ext back in
      let accepted : (http.post w (submit_url url) (encode ext)).1 ≡ Report.submitted 202 =
        connected.post_reply w (encode ext) ∙ ap (λ x. status_of x.1) handled in
      (
        (http.post w (submit_url url) (encode ext)).0,
        sent ∙ ap (λ r. some ((http.post w (submit_url url) (encode ext)).0, r)) accepted,
        connected.post_state w (encode ext)
            ∙ ap (λ x. record (server w) { channels = x.0 }) handled,
      )

  -- A submission to a node that is connected, has nothing waiting for its loop, and whose pool has no
  -- capacity and holds extrinsics of the account that run on from its nonce, is answered with 202, if
  -- the encodings read back and the nonce has room for all that is pending. The extrinsic, of the
  -- account, with the call and a good signature, is then gossiped and waits for the loop, runtime and
  -- pool are as they were, and once the loop takes it up it stands behind the old pool, and those of the
  -- account run on. But another submission before that is answered with 202 too, and has the same nonce.
  pub submit_to_node_lem :
      (url : Bytes) (server : W → Server)
      → IsConnected http hex_decode decode url server
      → (who : AccountKeyring) (call again : RuntimeCall) (w : W)
      → let account = public_key from_seed who in
        let rt = (server w).runtime in
        let pool = (server w).mempool in
        let n =
          System.nonce rt.system account + length (filter_by (is_from account) pool.pending) in
        let made = λ (c : RuntimeCall). new_signed (signing_key from_seed who) n c in
        decode (encode (made call)) ≡ some (made call)
        → decode (encode (made again)) ≡ some (made again)
        → hex_decode (hex_text account.bytes) ≡ some account.bytes
        → length account.bytes ≡ 32
        → (server w).channels.received ≡ []
        → pool.max_capacity ≡ none
        → IsU32 (System.nonce rt.system account + length pool.pending)
        → Consecutive (System.nonce rt.system account) (filter_by (is_from account) pool.pending)
        → (w' : W) × (ext : Extrinsic) × (submit_to_node from_seed http encode who call url w
            ≡ some (w', Report.submitted 202))
          × ((ext.signer ≡ account) × (ext.call ≡ call) × (verify ext ≡ ok tt))
          × (server w' ≡ record (server w) {
            channels = record {
              published = (server w).channels.published ++ (encode ext ∷ []);
              received = ext ∷ [];
            };
          })
          × ((take_in (server w').mempool (server w').channels.received).pending
              ≡ pool.pending ++ (ext ∷ []))
          × Consecutive (System.nonce rt.system account) (
              filter_by
                (is_from account)
                (take_in (server w').mempool (server w').channels.received).pending)
          × (w'' : W) × (ext' : Extrinsic) × (submit_to_node from_seed http encode who again url w'
              ≡ some (w'', Report.submitted 202))
          × (ext'.nonce ≡ ext.nonce)
          × ((server w'').channels.received ≡ ext ∷ ext' ∷ [])
  submit_to_node_lem url server connected who call again w back back' hex size idle uncapped room
        run =
      let account = public_key from_seed who in
      let rt = (server w).runtime in
      let pool = (server w).mempool in
      let n = System.nonce rt.system account + length (filter_by (is_from account) pool.pending) in
      let ext = new_signed (signing_key from_seed who) n call in
      let (w', sent, after) = submission url server connected who call w back hex size room in
      let waits : (server w').channels.received ≡ ext ∷ [] =
        ap (λ (s : Server). s.channels.received) after ∙ ap (λ xs. xs ++ (ext ∷ [])) idle in
      let grown : (take_in (server w').mempool (server w').channels.received).pending
          ≡ pool.pending ++ (ext ∷ []) =
        take_in-one (server w').mempool ext (server w').channels.received
          (ap (λ (s : Server). s.mempool.max_capacity) after ∙ uncapped) waits
        ∙ ap (λ (s : Server). s.mempool.pending ++ (ext ∷ [])) after in
      let answer =
        nonce_handler-pending hex_decode rt pool (hex_text account.bytes) account hex size room in
      let ext' = new_signed (signing_key from_seed who) n again in
      let (w'', sent', after') =
        submission url server connected who again w' (rw after back') hex size (rw after room) in
      (
        w',
        ext,
        sent,
        (
          unfold new_signed public_key in refl,
          unfold new_signed in refl,
          verify-new_signed (signing_key from_seed who) n call,
        ),
        after
            ∙ ap
                (λ xs. record (server w) {
                  channels = record {
                    published = (server w).channels.published ++ (encode ext ∷ []);
                    received = xs ++ (ext ∷ []);
                  };
                })
                idle,
        grown,
        rw grown (
            unfold new_signed public_key in
            nonce_handler_runs_on hex_decode rt pool (hex_text account.bytes) ext hex room run
              answer),
        w'',
        ext',
        sent',
        unfold new_signed in refl,
        ap (λ (s : Server). s.channels.received) after' ∙ rw (after, idle) refl,
      )
