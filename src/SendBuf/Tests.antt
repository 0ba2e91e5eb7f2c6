-- ===== src/SendBuf/Tests.antt =====
-- Runs of the send buffer, and instances of the theorems about it.
use libpaxos.Base.{ℕ, zero, suc, ◌<◌, true, some, List, [], ◌∷◌, ◌++◌, ◌≡◌, refl, All, arith}
use libpaxos.Base.{length}
use libpaxos.Config.{max_udp_msg_size}
use libpaxos.Messages.{MsgCode, Item, AcceptorRecord, paxos_msg_size}
use libpaxos.SendBuf.{SendBuf, new_buffer, sendbuf_clear, sendbuf_flush, sendbuf_add_accept_ack}
use libpaxos.SendBuf.{pax_submit_nonblock, sendbuf_add_submit_val}
use libpaxos.SendBuf.Batches.{packed, IsFit, add_all, batch_lem}
use libpaxos.SendBuf.Limits.{sendbuf_add_accept_ack_overflow}

abbrev two_requests : List Item
two_requests = Item.repeat_req 4 ∷ Item.repeat_req 9 ∷ []

batch_lem_example :
    (sb' : SendBuf) × (add_all MsgCode.repeat_reqs 0
        (sendbuf_clear new_buffer MsgCode.repeat_reqs 0)
        two_requests
      ≡ some sb')
    × (packed (sendbuf_flush sb').sent ≡ packed new_buffer.sent ++ two_requests)
    × All IsFit (sendbuf_flush sb').sent
batch_lem_example = batch_lem MsgCode.repeat_reqs 0 new_buffer two_requests tt (omega arith)

zeros : ℕ → List ℕ
zeros zero = []
zeros (suc n) = 0 ∷ zeros n

length-zeros : (n : ℕ) → length (zeros n) ≡ n
unfolding zeros
length-zeros zero = refl
length-zeros (suc n) = omega (arith, length-zeros n)

abbrev large_record : AcceptorRecord
large_record = record {
  iid = 1;
  ballot = 11;
  value_ballot = 11;
  is_final = true;
  value = zeros 7460;
}

sendbuf_add_accept_ack_overflow_example :
    (sb' : SendBuf) × (sendbuf_add_accept_ack
        (sendbuf_clear new_buffer MsgCode.accept_acks 2)
        large_record
      ≡ some sb')
    × (max_udp_msg_size < paxos_msg_size sb'.data_size)
sendbuf_add_accept_ack_overflow_example =
    sendbuf_add_accept_ack_overflow new_buffer 2 large_record (omega (arith, length-zeros 7460))

-- A client's submission is one datagram.
submit_run :
    (sb : SendBuf) × (pax_submit_nonblock new_buffer (5 ∷ 6 ∷ []) ≡ some sb)
    × (sb.sent
        ≡ record {
          type = MsgCode.submit;
          sender = 0;
          items = Item.submit_val (5 ∷ 6 ∷ []) ∷ [];
          data_size = 2;
        }
          ∷ [])
unfolding pax_submit_nonblock sendbuf_clear sendbuf_add_submit_val sendbuf_flush
submit_run = (_, refl, refl)
