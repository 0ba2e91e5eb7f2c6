-- ===== src/Proposer/Phase1.antt =====
-- lib/proposer_leader.c, the phase 1 routines: instances are opened ahead of their use, and their
-- prepare requests repeated with a higher ballot.
use libpaxos.Base.{Bool, ℕ, ◌+◌, ◌-◌, ◌/◌, ◌%◌, ◌^◌, ◌&&◌, Option, none, some, ltb, leb, ◌==◌}
use libpaxos.Base.{if◌then◌else◌, ◌>>=◌, ◌>>◌, assert}
use libpaxos.Config.{u64_mod, preexec_win_size, p1_timeout_interval}
use libpaxos.Messages.{MsgCode}
use libpaxos.SendBuf.{sendbuf_clear, sendbuf_flush, sendbuf_add_prepare_req}
use libpaxos.Proposer.{TimeVal, Status, Instance, Proposer, instance_of}
use libpaxos.Proposer.{set_instance, has_status, add32, first_ballot, next_ballot, for_range, upto}
use libpaxos.Proposer.Timing.{leader_set_expiration, leader_is_expired, gettimeofday}

-- An empty batch of the proposer's own in the send buffer, and the flush of what has been added.
abbrev pub start_batch : MsgCode → Proposer → Proposer
start_batch type s = record s {
  to_acceptors = sendbuf_clear s.to_acceptors type s.this_proposer_id;
}

abbrev pub flush : Proposer → Proposer
flush s = record s { to_acceptors = sendbuf_flush s.to_acceptors }

module _ (clock : ℕ → TimeVal) where
  -- The prepare request of an instance, and its deadline.
  unfoldable pub send_prepare : ℕ → Instance → Proposer → Option Proposer
  send_prepare iid ii s = do
    sb ← sendbuf_add_prepare_req s.to_acceptors ii.iid ii.my_ballot
    let (now, s') = gettimeofday clock (record s { to_acceptors = sb })
    some (set_instance s' iid (leader_set_expiration now ii p1_timeout_interval))

  -- The fields that phase 1 starts from again, with a higher ballot.
  abbrev pub restarted : Instance → Instance
  restarted ii = record ii {
    promises_bitvector = 0;
    promises_count = 0;
    p1_value_ballot = 0;
    p1_value = none;
    my_ballot = next_ballot ii.my_ballot;
  }

  -- One round of the loop of `leader_check_p1_pending`.
  unfoldable pub check_p1_pending : TimeVal → ℕ → Proposer → Option Proposer
  check_p1_pending time_now iid s =
      let ii = instance_of s iid in
      assert (ii.iid == iid)
      >> (if has_status ii Status.p1_pending && leader_is_expired ii.timeout time_now
          then (do
            s' ← send_prepare iid (restarted ii) s
            some (record s' {
              lead_counters = record s'.lead_counters {
                p1_timeout = s'.lead_counters.p1_timeout + 1;
              };
            }))
          else some s)

  unfoldable pub leader_check_p1_pending : Proposer → Option Proposer
  leader_check_p1_pending s = do
    let (time_now, s0) = gettimeofday clock (start_batch MsgCode.prepare_reqs s)
    s' ←
        for_range (check_p1_pending time_now) (upto s.current_iid s.p1_info.highest_open)
          s.current_iid s0
    some (flush s')

  -- One round of the loop of `leader_open_instances_p1`.
  unfoldable pub open_p1 : ℕ → Proposer → Option Proposer
  open_p1 curr_iid s =
      let ii = instance_of s curr_iid in
      assert (has_status ii Status.empty)
      >> send_prepare curr_iid
          (record ii {
            iid = curr_iid;
            status = Status.p1_pending;
            my_ballot = first_ballot s.this_proposer_id;
          })
          s

  -- `active_count` is an `int`.
  unfoldable pub leader_open_instances_p1 : Proposer → Option Proposer
  leader_open_instances_p1 s =
      let active_count = add32 s.p1_info.pending_count s.p1_info.ready_count in
      let to_open = preexec_win_size - active_count in
      assert (ltb active_count (2 ^ 31))
      >> (if leb (preexec_win_size / 2) active_count then some s else (do
        assert (leb (preexec_win_size / 2) to_open)
        s' ←
            for_range open_p1 to_open (s.p1_info.highest_open + 1)
              (start_batch MsgCode.prepare_reqs s)
        some (record (flush s') {
          p1_info = record s'.p1_info {
            pending_count = add32 s'.p1_info.pending_count to_open;
            highest_open = (s'.p1_info.highest_open + to_open) % u64_mod;
          };
        })))

  -- The work of `leader_periodic_p1_check`, but for its timer.
  unfoldable pub p1_round : Proposer → Option Proposer
  p1_round s = leader_check_p1_pending s >>= leader_open_instances_p1

  -- The flag tells whether `event_add` succeeds for the next check.
  unfoldable pub leader_periodic_p1_check : Bool → Proposer → Option Proposer
  leader_periodic_p1_check added s = p1_round s >>= λ s'. (assert added >> some s')
