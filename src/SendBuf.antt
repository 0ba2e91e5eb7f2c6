-- ===== src/SendBuf.antt =====
-- lib/udp_sendbuf.c and lib/submit_handle.c: a buffer that collects the items of one message and
-- sends it when full. What `sendto` is given is recorded in `sent`, oldest first; the socket and
-- its errors are not modelled. A message is closed before it reaches MAX_UDP_MSG_SIZE, so sizes
-- and counts stay far below the width of their types and are plain numbers.
pub mod Batches
pub mod Limits
mod Tests
use libpaxos.Base.{ℕ, ◌+◌, ◌-◌, ◌^◌, Bool, true, false, Option, some, List, [], ◌∷◌, ◌++◌}
use libpaxos.Base.{ltb, ◌==◌, if◌then◌else◌, ◌>>=◌, ◌>>◌, assert, length}
use libpaxos.Config.{max_udp_msg_size}
use libpaxos.Messages.{MsgCode, code, paxos_msg_size, Packet, Item, item_size, PrepareReq}
use libpaxos.Messages.{AcceptReq, AcceptAck, AcceptorRecord}

-- `udp_send_buffer`: the dirty flag and the fields of the message in the buffer.
pub record SendBuf : Type 0 where
  pub dirty : Bool
  pub type : MsgCode
  pub sender : ℕ
  pub items : List Item
  pub data_size : ℕ
  pub sent : List Packet

-- The sender -1 of a repeat request, as a 16-bit pattern; such a batch has no sender field.
abbrev pub no_sender : ℕ
no_sender = 2 ^ 16 - 1

-- The size of an empty batch.
abbrev pub batch_header : MsgCode → ℕ
batch_header MsgCode.prepare_reqs = 8
batch_header MsgCode.accept_reqs = 4
batch_header MsgCode.prepare_acks = 4
batch_header MsgCode.accept_acks = 4
batch_header MsgCode.repeat_reqs = 8
batch_header _ = 0

unfoldable pub sendbuf_clear : SendBuf → MsgCode → ℕ → SendBuf
sendbuf_clear sb type sender = record sb {
  dirty = false;
  type = type;
  sender = sender;
  items = [];
  data_size = batch_header type;
}

-- The datagram that the buffer holds.
abbrev pub current_packet : SendBuf → Packet
current_packet sb = record {
  type = sb.type;
  sender = sb.sender;
  items = sb.items;
  data_size = sb.data_size;
}

-- The flag stays set: only `sendbuf_clear` resets it.
unfoldable pub sendbuf_flush : SendBuf → SendBuf
sendbuf_flush sb = if sb.dirty then record sb { sent = sb.sent ++ current_packet sb ∷ [] } else sb

-- The test of each add: would the item not fit into the message?
abbrev pub is_full : SendBuf → ℕ → Bool
is_full sb size = if ltb (paxos_msg_size sb.data_size + size) max_udp_msg_size then false else true

-- Closes the current message if the item does not fit, and starts one of the same type.
unfoldable pub make_room : ℕ → SendBuf → ℕ → SendBuf
make_room sender sb size =
    if is_full sb size then sendbuf_clear (sendbuf_flush sb) sb.type sender else sb

-- Writes the item behind the others.
unfoldable pub append_item : SendBuf → Item → SendBuf
append_item sb it = record sb {
  dirty = true;
  items = sb.items ++ it ∷ [];
  data_size = sb.data_size + item_size it;
}

-- What the add functions have in common: an item goes into a message of its type.
unfoldable pub add_item : MsgCode → ℕ → SendBuf → Item → Option SendBuf
unfolding make_room append_item
add_item type sender sb it = do
  assert (code sb.type == code type)
  some (append_item (make_room sender sb (item_size it)) it)

unfoldable pub sendbuf_add_prepare_req : SendBuf → ℕ → ℕ → Option SendBuf
unfolding add_item
sendbuf_add_prepare_req sb iid ballot =
    add_item MsgCode.prepare_reqs sb.sender sb
      (Item.prepare_req (record { iid = iid; ballot = ballot }))

-- A promise carries the record's value, and the ballot at which it was accepted.
unfoldable pub sendbuf_add_prepare_ack : SendBuf → AcceptorRecord → Option SendBuf
unfolding add_item
sendbuf_add_prepare_ack sb rec = add_item MsgCode.prepare_acks sb.sender sb (
    Item.prepare_ack record {
      iid = rec.iid;
      ballot = rec.ballot;
      value_ballot = rec.value_ballot;
      value = rec.value;
    })

unfoldable pub sendbuf_add_accept_req : SendBuf → ℕ → ℕ → List ℕ → Option SendBuf
unfolding add_item
sendbuf_add_accept_req sb iid ballot value =
    add_item MsgCode.accept_reqs sb.sender sb
      (Item.accept_req (record { iid = iid; ballot = ballot; value = value }))

-- An accept acknowledgement is the whole record.
unfoldable pub sendbuf_add_accept_ack : SendBuf → AcceptorRecord → Option SendBuf
unfolding add_item
sendbuf_add_accept_ack sb rec = add_item MsgCode.accept_acks sb.sender sb (Item.accept_ack rec)

unfoldable pub sendbuf_add_repeat_req : SendBuf → ℕ → Option SendBuf
unfolding add_item
sendbuf_add_repeat_req sb iid = add_item MsgCode.repeat_reqs no_sender sb (Item.repeat_req iid)

-- A submitted value is written at the start of the message, whatever its size.
unfoldable pub sendbuf_add_submit_val : SendBuf → List ℕ → Option SendBuf
sendbuf_add_submit_val sb value = do
  assert (code sb.type == code MsgCode.submit)
  some (record sb {
    dirty = true;
    data_size = sb.data_size + length value;
    items = Item.submit_val value ∷ [];
  })

unfoldable pub sendbuf_send_ping : SendBuf → ℕ → ℕ → SendBuf
unfolding sendbuf_flush
sendbuf_send_ping sb proposer_id seqno = sendbuf_flush (record sb {
  dirty = true;
  type = MsgCode.alive_ping;
  data_size = 16;
  items = Item.ping_msg proposer_id seqno ∷ [];
})

unfoldable pub sendbuf_send_leader_announce : SendBuf → ℕ → SendBuf
unfolding sendbuf_flush
sendbuf_send_leader_announce sb leader_id = sendbuf_flush (record sb {
  dirty = true;
  type = MsgCode.leader_announce;
  data_size = 2;
  items = Item.announce_msg leader_id ∷ [];
})

-- `udp_sendbuf_new` zeroes the structure; no message has the type 0.
abbrev pub new_buffer : SendBuf
new_buffer = record {
  dirty = false;
  type = MsgCode.unknown 0;
  sender = 0;
  items = [];
  data_size = 0;
  sent = [];
}

-- A client's value goes out at once, in a message of its own.
unfoldable pub pax_submit_nonblock : SendBuf → List ℕ → Option SendBuf
unfolding sendbuf_clear sendbuf_add_submit_val sendbuf_flush
pax_submit_nonblock sb value = do
  sb' ← sendbuf_add_submit_val (sendbuf_clear sb MsgCode.submit 0) value
  some (sendbuf_flush sb')
