-- ===== src/Learner.antt =====
-- lib/learner.c: the state that a learner keeps of the open instances, and its handlers. `none` is
-- a failed assertion (or a loop out of fuel). The calls of the deliver callback are recorded in
-- `delivered`, oldest first; the callback is the client's code. Memory, threads and libevent are
-- not modelled here: an acknowledgement is copied, so a record holds its own.
pub mod Quorum
pub mod Votes
pub mod Ring
pub mod Invariant
pub mod Deliver
pub mod Handler
pub mod History
pub mod Dispatch
pub mod Startup
pub mod Threads
pub mod Suspend
pub mod Mixed
pub mod Holes
mod Tests
use libpaxos.Base.{
  ℕ, zero, suc, ◌+◌, ◌-◌, ◌%◌, ◌^◌, Bool, true, false, not, ◌&&◌, Option, none, some,
}
use libpaxos.Base.{
  List, [], ◌∷◌, ◌++◌, ltb, leb, ◌==◌, if◌then◌else◌, ◌>>=◌, ◌>>◌, assert, is_some, update,
}
use libpaxos.Config.{u64_mod, n_of_acceptors, quorum, max_n_of_proposers, learner_array_size}
use libpaxos.Messages.{MsgCode, AcceptAck, Item, Packet}
use libpaxos.SendBuf.{SendBuf, sendbuf_clear, sendbuf_flush, sendbuf_add_repeat_req, no_sender}
use libpaxos.SendBuf.{new_buffer}

-- `l_inst_info`; `acks` is an array of N_OF_ACCEPTORS pointers, `none` for NULL.
pub record InstInfo : Type 0 where
  pub iid : ℕ
  pub last_update_ballot : ℕ
  pub acks : ℕ → Option AcceptAck
  pub final_value : Option AcceptAck

-- The arguments of a call of the deliver callback.
pub record Delivery : Type 0 where
  pub value : List ℕ
  pub iid : ℕ
  pub ballot : ℕ
  pub proposer : ℕ

-- The static variables of the file.
pub record Learner : Type 0 where
  pub highest_iid_seen : ℕ
  pub current_iid : ℕ
  pub highest_iid_closed : ℕ
  pub learner_state : ℕ → InstInfo
  pub to_acceptors : SendBuf
  pub delivered : List Delivery

-- GET_LEA_INSTANCE: the mask by a power of two less one is the remainder.
abbrev pub slot : ℕ → ℕ
slot iid = iid % learner_array_size

abbrev pub instance_of : Learner → ℕ → InstInfo
instance_of s iid = s.learner_state (slot iid)

-- IS_CLOSED
abbrev pub is_closed : InstInfo → Bool
is_closed ii = is_some ii.final_value

unfoldable pub learner_is_closed : Learner → ℕ → Bool
learner_is_closed s iid = (iid == (instance_of s iid).iid) && is_closed (instance_of s iid)

-- INST_INFO_EMPTY is 0.
unfoldable pub lea_clear_instance_info : InstInfo → InstInfo
lea_clear_instance_info ii = record ii {
  iid = 0;
  last_update_ballot = 0;
  final_value = none;
  acks = λ _. none;
}

unfoldable pub lea_store_accept_ack : InstInfo → ℕ → AcceptAck → InstInfo
lea_store_accept_ack ii acceptor_id aa = record ii {
  acks = update ii.acks acceptor_id (some aa);
  last_update_ballot = aa.ballot;
}

-- The first message for an instance claims its record.
unfoldable pub claim : InstInfo → AcceptAck → InstInfo
claim ii aa = if ii.iid == 0 then record ii { iid = aa.iid; last_update_ballot = aa.ballot } else ii

-- The rest of `lea_update_state`, on an open instance.
unfoldable pub replace_ack : InstInfo → ℕ → AcceptAck → Bool × InstInfo
unfolding lea_store_accept_ack
replace_ack ii acceptor_id aa = elim (ii.acks acceptor_id) [
  | none ↦ (true, lea_store_accept_ack ii acceptor_id aa)
  | some prev_ack ↦
      if leb aa.ballot prev_ack.ballot
      then (false, ii)
      else (true, lea_store_accept_ack ii acceptor_id aa)
]

-- The flag tells whether the state changed.
unfoldable pub lea_update_state : InstInfo → ℕ → AcceptAck → Option (Bool × InstInfo)
lea_update_state ii acceptor_id aa = do
  let ii' = claim ii aa
  assert (ii'.iid == aa.iid)
  some (if is_closed ii' then (false, ii') else replace_ack ii' acceptor_id aa)

-- The loop of `lea_check_quorum` over the acceptors `i`, `i + 1`, …: `a_valid_index` and `count`.
unfoldable pub count_acks : (ℕ → Option AcceptAck) → ℕ → ℕ → ℕ → ℕ → ℕ → ℕ × ℕ
count_acks acks last zero i valid count = (valid, count)
count_acks acks last (suc rounds) i valid count =
    let skip = count_acks acks last rounds (i + 1) valid count in
    let next = count_acks acks last rounds (i + 1) i (count + 1) in
    elim (acks i) [
      | none ↦ skip
      | some curr_ack ↦
          if curr_ack.ballot == last
          then (if curr_ack.is_final then (i, count + 1 + n_of_acceptors) else next)
          else skip
    ]

-- `a_valid_index` starts as (size_t)-1.
unfoldable pub count_agreeing : InstInfo → ℕ × ℕ
unfolding count_acks
count_agreeing ii = count_acks ii.acks ii.last_update_ballot n_of_acceptors 0 (u64_mod - 1) 0

-- Whether the instance is closed, the instance, and HIGHEST_IID_CLOSED.
unfoldable pub lea_check_quorum : InstInfo → ℕ → Bool × InstInfo × ℕ
unfolding count_agreeing
lea_check_quorum ii highest_iid_closed =
    let (valid, count) = count_agreeing ii in
    if leb quorum count
    then (
      true,
      record ii { final_value = ii.acks valid },
      if ltb highest_iid_closed ii.iid then ii.iid else highest_iid_closed,
    )
    else (false, ii, highest_iid_closed)

-- One round of the loop below: the callback, the next instance, the cleared record.
unfoldable pub deliver_one : Learner → AcceptAck → Learner
unfolding lea_clear_instance_info
deliver_one s aa = record s {
  delivered =
      s.delivered
      ++ record {
        value = aa.value;
        iid = s.current_iid;
        ballot = aa.ballot;
        proposer = aa.ballot % max_n_of_proposers;
      }
        ∷ [];
  current_iid = (s.current_iid + 1) % u64_mod;
  learner_state =
      update s.learner_state (slot s.current_iid)
        (lea_clear_instance_info (instance_of s s.current_iid));
}

unfoldable pub deliver_loop : ℕ → Learner → Option Learner
unfolding deliver_one
deliver_loop zero s = none
deliver_loop (suc fuel) s = elim (instance_of s s.current_iid).final_value [
  | none ↦ some s
  | some aa ↦
      assert ((instance_of s s.current_iid).iid == s.current_iid)
      >> deliver_loop fuel (deliver_one s aa)
]

-- Each round clears one record: the fuel is one more than the records.
unfoldable pub lea_deliver_next_closed : Learner → Option Learner
unfolding deliver_loop
lea_deliver_next_closed s = deliver_loop (learner_array_size + 1) s

-- A changed record is written back, and checked for a quorum.
unfoldable pub close_instance : Learner → AcceptAck → InstInfo → Option Learner
close_instance s aa ii =
    let (closed, ii', highest) = lea_check_quorum ii s.highest_iid_closed in
    let s' = record s {
      learner_state = update s.learner_state (slot aa.iid) ii';
      highest_iid_closed = highest;
    } in
    if closed && (aa.iid == s.current_iid) then lea_deliver_next_closed s' else some s'

-- The highest instance seen.
unfoldable pub note_seen : Learner → AcceptAck → Learner
note_seen s aa = record s {
  highest_iid_seen = if ltb s.highest_iid_seen aa.iid then aa.iid else s.highest_iid_seen;
}

unfoldable pub update_instance : ℕ → AcceptAck → Learner → Option Learner
update_instance acceptor_id aa s = do
  (relevant, ii) ← lea_update_state (instance_of s aa.iid) acceptor_id aa
  if relevant
      then close_instance s aa ii
      else some (record s { learner_state = update s.learner_state (slot aa.iid) ii })

unfoldable pub handle_accept_ack : ℕ → AcceptAck → Learner → Option Learner
handle_accept_ack acceptor_id aa s =
    let s' = note_seen s aa in
    if ltb aa.iid s.current_iid
    then some s'
    else (if leb ((s.current_iid + learner_array_size) % u64_mod) aa.iid
        then some s'
        else update_instance acceptor_id aa s')

unfoldable pub handle_accept_ack_batch : ℕ → List AcceptAck → Learner → Option Learner
handle_accept_ack_batch acceptor_id [] s = some s
handle_accept_ack_batch acceptor_id (aa ∷ aas) s =
    handle_accept_ack acceptor_id aa s >>= handle_accept_ack_batch acceptor_id aas

-- The loop of `lea_send_repeat_request`, with the rounds left: `to - from`.
unfoldable pub request_open : Learner → ℕ → ℕ → SendBuf → Option SendBuf
request_open s zero i sb = some sb
request_open s (suc rounds) i sb = do
  sb' ← (if is_closed (instance_of s i) then some sb else sendbuf_add_repeat_req sb i)
  request_open s rounds (i + 1) sb'

unfoldable pub lea_send_repeat_request : Learner → ℕ → ℕ → Option Learner
lea_send_repeat_request s from to = do
  sb ← request_open s (to - from) from (sendbuf_clear s.to_acceptors MsgCode.repeat_reqs no_sender)
  some (record s { to_acceptors = sendbuf_flush sb })

-- The next timeout is not modelled.
unfoldable pub lea_hole_check : Learner → Option Learner
lea_hole_check s =
    if ltb ((s.current_iid + learner_array_size) % u64_mod) s.highest_iid_seen
    then lea_send_repeat_request s s.current_iid s.highest_iid_seen
    else (if ltb s.current_iid s.highest_iid_closed
        then lea_send_repeat_request s s.current_iid s.highest_iid_closed
        else some s)

abbrev pub empty_instance : InstInfo
empty_instance = record { iid = 0; last_update_ballot = 0; acks = λ _. none; final_value = none }

-- The initial values, after `init_lea_structs` and `init_lea_network`.
abbrev pub init_learner : Learner
init_learner = record {
  highest_iid_seen = 1;
  current_iid = 1;
  highest_iid_closed = 0;
  learner_state = λ _. empty_instance;
  to_acceptors = new_buffer;
  delivered = [];
}
