-- ===== src/Proposer/Handlers.antt =====
-- lib/proposer.c: the event handlers of a proposer, its deliver callback and its initialization.
use libpaxos.Base.{Bool, assert, ◌>>◌, ℕ, ◌+◌, ◌%◌, not, ◌&&◌, Option, none, some, List, ltb}
use libpaxos.Base.{leb, ◌==◌, if◌then◌else◌, ◌>>=◌}
use libpaxos.Config.{u64_mod, max_n_of_proposers}
use libpaxos.Messages.{PrepareAck}
use libpaxos.Receiver.{Datagram, udp_read_next_message, prepare_acks, leader_announce}
use libpaxos.SendBuf.{sendbuf_send_ping, new_buffer}
use libpaxos.Values.{Value}
use libpaxos.Proposer.{TimeVal, Proposer, leader_is_me, pro_clear_instance_info}
use libpaxos.Proposer.Promises.{handle_prepare_acks}
use libpaxos.Proposer.Phase2.{leader_open_instances_p2_expired, leader_open_instances_p2_new}
use libpaxos.Proposer.Leader.{
  LeadCalls, leader_init, leader_deliver, start_leading, leader_shutdown,
}

-- The work of `pro_ping_failure_detector`, but for its timer.
unfoldable pub send_ping : Proposer → Proposer
send_ping s =
    let seqno = (s.alive_ping_seqno + 1) % u64_mod in
    record s {
      alive_ping_seqno = seqno;
      to_oracle = sendbuf_send_ping s.to_oracle s.this_proposer_id seqno;
    }

-- The flag tells whether `event_add` succeeds for the next ping.
unfoldable pub pro_ping_failure_detector : Bool → Proposer → Option Proposer
pro_ping_failure_detector added s = assert added >> some (send_ping s)

unfoldable pub init_pro_structs : Proposer → Proposer
init_pro_structs s = record s { proposer_state = λ i. pro_clear_instance_info (s.proposer_state i) }

module _ (clock : ℕ → TimeVal) where
  unfoldable pub pro_deliver_callback : Value → ℕ → Proposer → Option Proposer
  pro_deliver_callback value iid s = do
    s' ← (if leader_is_me s then leader_deliver clock value iid s else some s)
    some (record s' { current_iid = (iid + 1) % u64_mod })

  unfoldable pub handle_prepare_ack_batch : ℕ → List PrepareAck → Proposer → Option Proposer
  handle_prepare_ack_batch acceptor_id pas s =
      let (ready, s') = handle_prepare_acks acceptor_id pas s in
      if not (leader_is_me s)
      then some s
      else (if ltb 0 ready
          then leader_open_instances_p2_expired clock s' >>= leader_open_instances_p2_new clock
          else some s')

  unfoldable pub pro_handle_newmsg : Option (Datagram × ℕ) → Proposer → Option Proposer
  pro_handle_newmsg received s = elim (udp_read_next_message received) [
    | some (prepare_acks acceptor_id pas) ↦ handle_prepare_ack_batch acceptor_id pas s
    | _ ↦ some s
  ]

  -- The change of leader: a step down, a promotion, or neither. What `leader_init` returns is not
  -- looked at.
  unfoldable pub change_leader : LeadCalls → ℕ → Proposer → Option Proposer
  change_leader c current_leader s =
      if leader_is_me s && not (current_leader == s.this_proposer_id)
      then leader_shutdown s
      else (if not (leader_is_me s) && (current_leader == s.this_proposer_id)
          then (leader_init clock c s >>= λ r. some r.1)
          else some s)

  unfoldable pub pro_handle_oracle_msg :
      LeadCalls → Option (Datagram × ℕ) → Proposer → Option Proposer
  pro_handle_oracle_msg c received s = elim (udp_read_next_message received) [
    | some (leader_announce current_leader) ↦ change_leader c current_leader s >>= λ s'.
        some (record s' { current_leader_id = current_leader })
    | _ ↦ some s
  ]

  -- The sockets and events are set up without an error, and the client has no function of its own
  -- to call.
  unfoldable pub init_proposer : Proposer → Option Proposer
  init_proposer s =
      let s' =
        init_pro_structs
          (send_ping (record s { to_acceptors = new_buffer; to_oracle = new_buffer })) in
      if leader_is_me s' then start_leading clock s' else some s'

  -- The number is checked; the learner then calls `init_proposer`.
  unfoldable pub proposer_init : ℕ → Proposer → Option Proposer
  proposer_init proposer_id s =
      if leb max_n_of_proposers proposer_id
      then none
      else init_proposer (record s { this_proposer_id = proposer_id })
