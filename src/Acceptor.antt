-- ===== src/Acceptor.antt =====
-- lib/acceptor.c: the handlers of an acceptor, over its stable storage and two send buffers. `none`
-- is a failed assertion, or the use of a NULL record. Timers and sockets are not
-- modelled; ACCEPTOR_UPDATE_ON_DELIVER is an argument of the deliver callback.
pub mod Table
pub mod Rounds
pub mod Prepare
pub mod Accept
pub mod Ballots
pub mod Repeat
pub mod Events
pub mod Serving
pub mod Setup
mod Tests
use libpaxos.Base.{ℕ, ◌+◌, Bool, true, false, ◌&&◌, Option, none, some, List, [], ◌∷◌}
use libpaxos.Base.{ltb, leb, ◌==◌, if◌then◌else◌, ◌>>=◌, ◌>>◌, assert, length}
use libpaxos.Config.{n_of_acceptors}
use libpaxos.Messages.{MsgCode, PrepareReq, AcceptReq, AcceptAck, AcceptorRecord, Item, item_size}
use libpaxos.Messages.{accept_ack_size}
use libpaxos.Receiver.{Datagram, udp_read_next_message, prepare_reqs, accept_reqs, repeat_reqs}
use libpaxos.SendBuf.{SendBuf, sendbuf_clear, sendbuf_flush, is_full, sendbuf_add_prepare_ack}
use libpaxos.SendBuf.{sendbuf_add_accept_ack}
use libpaxos.Storage.{Db, stablestorage_tx_begin, stablestorage_tx_end, stablestorage_get_record}
use libpaxos.Storage.{stablestorage_save_accept, stablestorage_save_prepare}
use libpaxos.Storage.{stablestorage_save_final_value}

-- The static variables of the file, and the open database.
pub record Acceptor (Store : Type 0) : Type 0 where
  pub this_acceptor_id : ℕ
  pub highest_accepted_iid : ℕ
  pub to_proposers : SendBuf
  pub to_learners : SendBuf
  pub store : Store

-- `rec != NULL && rec->ballot < ar->ballot`
abbrev pub drops_accept : Option AcceptorRecord → AcceptReq → Bool
drops_accept none ar = false
drops_accept (some rec) ar = ltb rec.ballot ar.ballot

-- `rec != NULL && rec->ballot >= pr->ballot`, and then `rec != NULL && rec->is_final`
abbrev pub drops_prepare : Option AcceptorRecord → PrepareReq → Bool
drops_prepare none pr = false
drops_prepare (some rec) pr = if leb pr.ballot rec.ballot then true else rec.is_final

-- The two send buffers.
pub data Side : Type 0 where
  proposers learners : Side

abbrev pub buffer : Side → {S : Type 0} → Acceptor S → SendBuf
buffer proposers a = a.to_proposers
buffer learners a = a.to_learners

abbrev pub set_buffer : Side → {S : Type 0} → SendBuf → Acceptor S → Acceptor S
set_buffer proposers sb a = record a { to_proposers = sb }
set_buffer learners sb a = record a { to_learners = sb }

abbrev pub ack_type : Side → MsgCode
ack_type proposers = MsgCode.prepare_acks
ack_type learners = MsgCode.accept_acks

-- The loop over the items of a batch.
unfoldable pub for_each {ℓ} : {X : Type ℓ} {S : Type 0} → (X → S → Option S) → List X → S → Option S
for_each round [] s = some s
for_each round (x ∷ xs) s = round x s >>= for_each round xs

module _ (db : Db) where
  -- The returned record is `none` where the code returns NULL.
  unfoldable pub acc_apply_accept :
      AcceptReq
      → Option AcceptorRecord
      → Acceptor db.Store
      → Option (Option AcceptorRecord × Acceptor db.Store)
  acc_apply_accept ar rec a = if drops_accept rec ar then some (none, a) else (do
    (new_rec, store) ← stablestorage_save_accept db a.store ar
    some (
      some new_rec,
      record a {
        store = store;
        highest_accepted_iid =
            if ltb a.highest_accepted_iid ar.iid then ar.iid else a.highest_accepted_iid;
      },
    ))

  unfoldable pub acc_apply_prepare :
      PrepareReq
      → Option AcceptorRecord
      → Acceptor db.Store
      → Option (Option AcceptorRecord × Acceptor db.Store)
  acc_apply_prepare pr rec a = if drops_prepare rec pr then some (none, a) else (do
    (new_rec, store) ← stablestorage_save_prepare db a.store pr rec
    some (some new_rec, record a { store = store }))

module _ (db : Db) (durability_mode : ℕ) where
  abbrev tx_begin : db.Store → Option db.Store
  tx_begin = stablestorage_tx_begin db durability_mode

  abbrev tx_end : db.Store → Option db.Store
  tx_end = stablestorage_tx_end db durability_mode

  -- A full message is sent only after the transaction is committed; a new one is begun.
  unfoldable pub commit_if_full : SendBuf → ℕ → db.Store → Option db.Store
  commit_if_full sb size s = if is_full sb size then (tx_end s >>= tx_begin) else some s

  -- `sendbuf_add_prepare_ack`, with its calls of the storage.
  unfoldable pub add_prepare_ack : AcceptorRecord → Acceptor db.Store → Option (Acceptor db.Store)
  add_prepare_ack rec a = do
    store ← commit_if_full a.to_proposers (24 + length rec.value) a.store
    sb ← sendbuf_add_prepare_ack a.to_proposers rec
    some (record a { store = store; to_proposers = sb })

  -- `sendbuf_add_accept_ack`, with its calls of the storage.
  unfoldable pub add_accept_ack : AcceptorRecord → Acceptor db.Store → Option (Acceptor db.Store)
  add_accept_ack rec a = do
    store ← commit_if_full a.to_learners (accept_ack_size rec) a.store
    sb ← sendbuf_add_accept_ack a.to_learners rec
    some (record a { store = store; to_learners = sb })

  -- One round of the loop in `handle_prepare_req_batch`.
  unfoldable pub prepare_round : PrepareReq → Acceptor db.Store → Option (Acceptor db.Store)
  prepare_round pr a = do
    rec ← stablestorage_get_record db a.store pr.iid
    (rec', a') ← acc_apply_prepare db pr rec a
    elim rec' [ none ↦ some a' | some r ↦ add_prepare_ack r a' ]

  -- One round of the loop in `handle_accept_req_batch`.
  unfoldable pub accept_round : AcceptReq → Acceptor db.Store → Option (Acceptor db.Store)
  accept_round ar a = do
    rec ← stablestorage_get_record db a.store ar.iid
    (rec', a') ← acc_apply_accept db ar rec a
    elim rec' [ none ↦ some a' | some r ↦ add_accept_ack r a' ]

  -- One round of the loop in `handle_repeat_req_batch`.
  unfoldable pub repeat_round : ℕ → Acceptor db.Store → Option (Acceptor db.Store)
  repeat_round iid a = do
    rec ← stablestorage_get_record db a.store iid
    let skip = some a
    elim rec [ none ↦ skip | some r ↦ if ltb 0 (length r.value) then add_accept_ack r a else skip ]

  -- The frame of a handler: clear the buffer, begin, loop, end, flush.
  unfoldable pub with_buffer :
      Side
      → (Acceptor db.Store → Option (Acceptor db.Store))
      → Acceptor db.Store
      → Option (Acceptor db.Store)
  with_buffer side loop a = do
    let cleared = sendbuf_clear (buffer side a) (ack_type side) a.this_acceptor_id
    store ← tx_begin a.store
    a' ← loop (set_buffer side cleared (record a { store = store }))
    store' ← tx_end a'.store
    some (set_buffer side (sendbuf_flush (buffer side a')) (record a' { store = store' }))

  unfoldable pub handle_prepare_req_batch :
      List PrepareReq → Acceptor db.Store → Option (Acceptor db.Store)
  handle_prepare_req_batch prb = with_buffer proposers (for_each prepare_round prb)

  unfoldable pub handle_accept_req_batch :
      List AcceptReq → Acceptor db.Store → Option (Acceptor db.Store)
  handle_accept_req_batch arb = with_buffer learners (for_each accept_round arb)

  unfoldable pub handle_repeat_req_batch : List ℕ → Acceptor db.Store → Option (Acceptor db.Store)
  handle_repeat_req_batch rrb = with_buffer learners (for_each repeat_round rrb)

  -- The body reads the record and adds it unchecked: a NULL record is a fault.
  unfoldable pub retransmit_round : Acceptor db.Store → Option (Acceptor db.Store)
  retransmit_round a = do
    rec ← stablestorage_get_record db a.store a.highest_accepted_iid
    elim rec [ none ↦ none | some r ↦ add_accept_ack r a ]

  unfoldable pub acc_retransmit_latest_accept : Acceptor db.Store → Option (Acceptor db.Store)
  acc_retransmit_latest_accept = with_buffer learners retransmit_round

  unfoldable pub acc_periodic_repeater : Acceptor db.Store → Option (Acceptor db.Store)
  acc_periodic_repeater a =
      if ltb 0 a.highest_accepted_iid then acc_retransmit_latest_accept a else some a

  -- Without ACCEPTOR_UPDATE_ON_DELIVER the callback only prints a warning.
  unfoldable pub acc_deliver_callback :
      Bool → List ℕ → ℕ → ℕ → Acceptor db.Store → Option (Acceptor db.Store)
  acc_deliver_callback update_on_deliver value iid ballot a =
      if update_on_deliver
      then (do
        s ← tx_begin a.store
        (rec, s') ← stablestorage_save_final_value db s value iid ballot
        s'' ← tx_end s'
        some (record a { store = s'' }))
      else some a

  -- The message is dispatched by its type; others are dropped.
  unfoldable pub acc_handle_newmsg :
      Option (Datagram × ℕ) → Acceptor db.Store → Option (Acceptor db.Store)
  acc_handle_newmsg received a =
      let skip = some a in
      elim (udp_read_next_message received) [
        | some (prepare_reqs id prb) ↦ handle_prepare_req_batch prb a
        | some (accept_reqs id arb) ↦ handle_accept_req_batch arb a
        | some (repeat_reqs rrb) ↦ handle_repeat_req_batch rrb a
        | _ ↦ skip
      ]
