-- ===== src/Receiver.antt =====
-- lib/udp_receiver.c: the checks on a received datagram. A datagram is what a handler reads of it:
-- the declared size, the type, and the fields of the batch. The sizes of the batches are computed
-- as the code does; sockets and printing are not modelled.
pub mod Checks
pub mod Sockets
mod Tests
use libpaxos.Base.{
  ℕ, ◌+◌, ◌%◌, ◌*◌, ◌^◌, Bool, true, false, ◌||◌, Option, none, some, List, [], ◌∷◌,
}
use libpaxos.Base.{leb, ◌==◌, if◌then◌else◌, length, is_some}
use libpaxos.Config.{u64_mod, max_n_of_proposers, n_of_acceptors}
use libpaxos.Messages.{
  PrepareReq, PrepareAck, AcceptReq, AcceptAck, prepare_ack_size, accept_req_size,
}
use libpaxos.Messages.{accept_ack_size, paxos_msg_header}

-- The data of a message, by its type; the first number of a batch is its sender, as the 16-bit
-- pattern of a `short int`.
pub data Body : Type 0 where
  prepare_reqs : ℕ → List PrepareReq → Body
  prepare_acks : ℕ → List PrepareAck → Body
  accept_reqs : ℕ → List AcceptReq → Body
  accept_acks : ℕ → List AcceptAck → Body
  repeat_reqs : List ℕ → Body
  submit : List ℕ → Body
  alive_ping : ℕ → ℕ → Body
  leader_announce : ℕ → Body
  unknown : ℕ → Body

pub record Datagram : Type 0 where
  pub data_size : ℕ
  pub body : Body

-- The loops over a batch: the offset behind its items.
unfoldable pub items_offset : {A : Type 0} → (A → ℕ) → List A → ℕ → ℕ
items_offset size [] offset = offset
items_offset size (x ∷ xs) offset = items_offset size xs (offset + size x)

unfoldable pub prepare_ack_batch_size_calc : List PrepareAck → ℕ
unfolding items_offset
prepare_ack_batch_size_calc pab = 4 + items_offset prepare_ack_size pab 0

unfoldable pub accept_req_batch_size_calc : List AcceptReq → ℕ
unfolding items_offset
accept_req_batch_size_calc arb = 4 + items_offset accept_req_size arb 0

unfoldable pub accept_ack_batch_size_calc : List AcceptAck → ℕ
unfolding items_offset
accept_ack_batch_size_calc aab = 4 + items_offset accept_ack_size aab 0

-- `id < 0 || id >= bound`
abbrev pub out_of_bounds : ℕ → ℕ → Bool
out_of_bounds id bound = leb (2 ^ 15) id || leb bound id

-- The switch: the size that the message should have, or a return of -1.
unfoldable pub expected_size : ℕ → Body → Option ℕ
expected_size data_size (prepare_reqs id prb) =
    if out_of_bounds id max_n_of_proposers
    then none
    else some (paxos_msg_header + (8 + length prb * 16))
expected_size data_size (prepare_acks id pab) =
    if out_of_bounds id n_of_acceptors
    then none
    else some (paxos_msg_header + prepare_ack_batch_size_calc pab)
expected_size data_size (accept_reqs id arb) =
    if out_of_bounds id max_n_of_proposers
    then none
    else some (paxos_msg_header + accept_req_batch_size_calc arb)
expected_size data_size (accept_acks id aab) =
    if out_of_bounds id n_of_acceptors
    then none
    else some (paxos_msg_header + accept_ack_batch_size_calc aab)
expected_size data_size (repeat_reqs rrb) = some (paxos_msg_header + (8 + 8 * length rrb))
expected_size data_size (submit value) = some (paxos_msg_header + data_size)
expected_size data_size (alive_ping id seqno) = some (paxos_msg_header + 16)
expected_size data_size (leader_announce id) = some (paxos_msg_header + 2)
expected_size data_size (unknown type) = none

-- Whether 0 is returned. The comparison with the expected size stands in the switch behind the
-- `return` of its default case, where no case reaches it: the size is computed and not used.
unfoldable pub validate_paxos_msg : Datagram → ℕ → Bool
validate_paxos_msg m msg_size =
    if (m.data_size + paxos_msg_header) % u64_mod == msg_size
    then is_some (expected_size m.data_size m.body)
    else false

-- What `recvfrom` gives: nothing for an error, or a datagram and its size. The body is returned
-- where the code returns 0.
unfoldable pub udp_read_next_message : Option (Datagram × ℕ) → Option Body
udp_read_next_message none = none
udp_read_next_message (some (m, msg_size)) =
    if validate_paxos_msg m msg_size then some m.body else none
