-- ===== src/SendBuf/Limits.antt =====
-- Values that no message can hold: the adds do not check the size of a single item.
use libpaxos.Base.{ℕ, ◌-◌, ◌<◌, ◌≤◌, some, length, ◌≡◌, refl, arith}
use libpaxos.Config.{max_udp_msg_size, paxos_max_value_size}
use libpaxos.Messages.{MsgCode, paxos_msg_size, AcceptorRecord, Item, item_size}
use libpaxos.SendBuf.{SendBuf, sendbuf_clear, sendbuf_flush, sendbuf_add_accept_ack}
use libpaxos.SendBuf.{append_item, make_room}

-- With a value of 7449 bytes or more, which PAXOS_MAX_VALUE_SIZE (7460) allows, a message that
-- `sendbuf_add_accept_ack` writes is larger than MAX_UDP_MSG_SIZE, the size of the buffer.
pub sendbuf_add_accept_ack_overflow :
    (sb : SendBuf) (sender : ℕ) (rec : AcceptorRecord)
    → paxos_max_value_size - 11 ≤ length rec.value
    → (sb' : SendBuf) × (sendbuf_add_accept_ack (sendbuf_clear sb MsgCode.accept_acks sender) rec
        ≡ some sb')
      × (max_udp_msg_size < paxos_msg_size sb'.data_size)
unfolding sendbuf_add_accept_ack sendbuf_clear sendbuf_flush
sendbuf_add_accept_ack_overflow sb sender rec h =
    let c = sendbuf_clear sb MsgCode.accept_acks sender in
    (
      append_item (make_room sender c (item_size (Item.accept_ack rec))) (Item.accept_ack rec),
      refl,
      ground arith,
    )
