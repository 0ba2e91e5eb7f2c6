-- ===== src/Messages.antt =====
-- The messages of include/libpaxos_messages.h. A value is its bytes, and its `value_size` their
-- number. The sizes are those of the LP64 data model (`size_t` and `unsigned long` of 8 bytes).
use libpaxos.Base.{ℕ, ◌+◌, List, Bool, length}

-- The codes are those of `paxos_msg_code`; `unknown` is any other number on the wire.
pub data MsgCode : Type 0 where
  prepare_reqs prepare_acks accept_reqs accept_acks repeat_reqs : MsgCode
  submit leader_announce alive_ping : MsgCode
  unknown : ℕ → MsgCode

pub record PrepareReq : Type 0 where
  pub iid : ℕ
  pub ballot : ℕ

pub record PrepareAck : Type 0 where
  pub iid : ℕ
  pub ballot : ℕ
  pub value_ballot : ℕ
  pub value : List ℕ

pub record AcceptReq : Type 0 where
  pub iid : ℕ
  pub ballot : ℕ
  pub value : List ℕ

pub record AcceptAck : Type 0 where
  pub iid : ℕ
  pub ballot : ℕ
  pub value_ballot : ℕ
  pub is_final : Bool
  pub value : List ℕ

-- `typedef accept_ack acceptor_record`
abbrev pub AcceptorRecord : Type 0
AcceptorRecord = AcceptAck

-- sizeof(paxos_msg)
abbrev pub paxos_msg_header : ℕ
paxos_msg_header = 16

-- The sizes of one item of each batch.
abbrev pub prepare_req_size : PrepareReq → ℕ
prepare_req_size m = 16

abbrev pub prepare_ack_size : PrepareAck → ℕ
prepare_ack_size m = 24 + length m.value

abbrev pub accept_req_size : AcceptReq → ℕ
accept_req_size m = 24 + length m.value

abbrev pub accept_ack_size : AcceptAck → ℕ
accept_ack_size m = 32 + length m.value

abbrev pub repeat_req_size : ℕ → ℕ
repeat_req_size m = 8

-- What a batch or another message carries.
pub data Item : Type 0 where
  prepare_req : PrepareReq → Item
  prepare_ack : PrepareAck → Item
  accept_req : AcceptReq → Item
  accept_ack : AcceptAck → Item
  repeat_req : ℕ → Item
  submit_val : List ℕ → Item
  -- the proposer and the sequence number
  ping_msg : ℕ → ℕ → Item
  announce_msg : ℕ → Item

-- The bytes that an item takes in its message.
abbrev pub item_size : Item → ℕ
item_size (prepare_req m) = prepare_req_size m
item_size (prepare_ack m) = prepare_ack_size m
item_size (accept_req m) = accept_req_size m
item_size (accept_ack m) = accept_ack_size m
item_size (repeat_req m) = repeat_req_size m
item_size (submit_val v) = length v
item_size (ping_msg p n) = 16
item_size (announce_msg p) = 2

-- The number of a message type.
abbrev pub code : MsgCode → ℕ
code prepare_reqs = 1
code prepare_acks = 2
code accept_reqs = 4
code accept_acks = 8
code repeat_reqs = 16
code submit = 32
code leader_announce = 64
code alive_ping = 65
code (unknown n) = n

-- A datagram: its type, the sender field of its batch, its items and the size of its data.
pub record Packet : Type 0 where
  pub type : MsgCode
  pub sender : ℕ
  pub items : List Item
  pub data_size : ℕ

-- PAXOS_MSG_SIZE
abbrev pub paxos_msg_size : ℕ → ℕ
paxos_msg_size data_size = data_size + paxos_msg_header
