-- ===== src/Proposer/Phase2.antt =====
-- lib/proposer_leader.c, the phase 2 routines: values are assigned to ready instances, in the
-- order of the instances, and sent to the acceptors.
use libpaxos.Base.{Bool, ℕ, zero, suc, ◌+◌, ◌-◌, ◌*◌, ◌/◌, ◌%◌, not, ◌&&◌, ◌||◌}
use libpaxos.Base.{Option, none, some, ltb, ◌==◌, if◌then◌else◌, ◌>>=◌, ◌>>◌, assert, is_some}
use libpaxos.Config.{u64_mod, p2_concurrency, p2_timeout_interval}
use libpaxos.Messages.{MsgCode}
use libpaxos.SendBuf.{sendbuf_add_accept_req}
use libpaxos.Values.{Value, Values, vh_get_next_pending}
use libpaxos.Learner.{Learner, learner_is_closed}
use libpaxos.Proposer.{TimeVal, Status, Instance, Proposer}
use libpaxos.Proposer.{
  instance_of, set_instance, has_status, add32, sub32, next_ballot, for_range, before,
}
use libpaxos.Proposer.Timing.{leader_set_expiration, leader_is_expired, gettimeofday}
use libpaxos.Proposer.Phase1.{start_batch, flush, send_prepare}

-- The value to send: the instance with it as its `p2_value`, and the pending list. The last case
-- of the code, for both values present, stands behind the one for a `p1_value` and is not reached.
unfoldable pub assign_value : Instance → Values → Option (Value × Instance × Values)
assign_value ii vh =
    let (vw, vh') = vh_get_next_pending vh in
    elim ii.p1_value [
      | some v ↦ some (v, record ii { p2_value = some v; p1_value = none; p1_value_ballot = 0 }, vh)
      | none ↦ elim ii.p2_value [
        | some v ↦ some (v, ii, vh)
        | none ↦ elim vw [ none ↦ none | some v ↦ some (v, record ii { p2_value = some v }, vh') ]
      ]
    ]

abbrev pub threshold : ℕ
threshold = p2_concurrency / 3 * 2

module _ (clock : ℕ → TimeVal) where
  unfoldable pub leader_execute_p2 : ℕ → Proposer → Option Proposer
  leader_execute_p2 iid s = do
    (v, ii, vh) ← assign_value (instance_of s iid) s.values
    sb ← sendbuf_add_accept_req s.to_acceptors ii.iid ii.my_ballot v
    let (now, s') = gettimeofday clock (record s { values = vh; to_acceptors = sb })
    some (
        set_instance s' iid (
          leader_set_expiration now (record ii { status = Status.p2_pending }) p2_timeout_interval))

  -- One round of the loop of `leader_open_instances_p2_expired`. The number of instances opened
  -- is taken from `ready_count` behind the loop; here each takes one, which nothing in between
  -- reads.
  unfoldable pub open_p2_expired : ℕ → Proposer → Option Proposer
  open_p2_expired iid s =
      let ii = instance_of s iid in
      assert (ii.iid == iid)
      >> (if has_status ii Status.p1_ready
          then (do
            assert (is_some ii.p2_value || is_some ii.p2_value)
            s' ← leader_execute_p2 iid s
            some (record s' {
              p1_info = record s'.p1_info { ready_count = sub32 s'.p1_info.ready_count 1 };
            }))
          else some s)

  unfoldable pub leader_open_instances_p2_expired : Proposer → Option Proposer
  leader_open_instances_p2_expired s = do
    s' ←
        for_range open_p2_expired (before s.current_iid s.p2_info.next_unused_iid) s.current_iid
          (start_batch MsgCode.accept_reqs s)
    some (flush s')

  -- The loop of `leader_open_instances_p2_new`, with the rounds that its condition leaves and the
  -- number of instances opened.
  unfoldable pub open_p2_new : ℕ → ℕ → Proposer → Option (ℕ × Proposer)
  open_p2_new zero count s = some (count, s)
  open_p2_new (suc rounds) count s =
      let next = s.p2_info.next_unused_iid in
      let ii = instance_of s next in
      assert (not (is_some ii.p2_value))
      >> (if not (is_some ii.p1_value) && (s.values.vh_list_size == 0)
          then some (count, s)
          else (if not (has_status ii Status.p1_ready) || not (ii.iid == next)
              then some (
                count,
                record s {
                  lead_counters = record s.lead_counters {
                    p2_waits_p1 = s.lead_counters.p2_waits_p1 + 1;
                  };
                },
              )
              else (do
                s' ← leader_execute_p2 next s
                open_p2_new rounds (count + 1) (record s' {
                  p2_info = record s'.p2_info {
                    next_unused_iid = (s'.p2_info.next_unused_iid + 1) % u64_mod;
                  };
                }))))

  unfoldable pub leader_open_instances_p2_new : Proposer → Option Proposer
  leader_open_instances_p2_new s = if ltb threshold s.p2_info.open_count then some s else (do
    (count, s') ←
        open_p2_new (p2_concurrency + 1 - s.p2_info.open_count) 0
          (start_batch MsgCode.accept_reqs s)
    some (record (flush s') {
      p1_info = record s'.p1_info { ready_count = sub32 s'.p1_info.ready_count count };
      p2_info = record s'.p2_info { open_count = add32 s'.p2_info.open_count count };
    }))

  -- Expired and not closed: the instance goes back to phase 1, and keeps its values.
  unfoldable pub restart_from_p1 : ℕ → Proposer → Option Proposer
  restart_from_p1 iid s =
      let ii = instance_of s iid in
      (do
        s' ←
            send_prepare clock iid
              (record ii { status = Status.p1_pending; my_ballot = next_ballot ii.my_ballot }) s
        some (record s' {
          p1_info = record s'.p1_info { pending_count = add32 s'.p1_info.pending_count 1 };
          lead_counters = record s'.lead_counters { p2_timeout = s'.lead_counters.p2_timeout + 1 };
        }))

  -- One round of the loop of `p2_round`. The learner is that of the proposer.
  unfoldable pub check_p2 : Learner → TimeVal → ℕ → Proposer → Option Proposer
  check_p2 learner now iid s =
      let ii = instance_of s iid in
      if not (has_status ii Status.p2_pending)
      then some s
      else (if learner_is_closed learner iid
          then some (record (set_instance s iid (record ii { status = Status.p2_completed })) {
            p2_info = record s.p2_info { open_count = sub32 s.p2_info.open_count 1 };
          })
          else (if not (leader_is_expired ii.timeout now) then some s else restart_from_p1 iid s))

  -- The work of `leader_periodic_p2_check`, but for its timer.
  unfoldable pub p2_round : Learner → Proposer → Option Proposer
  p2_round learner s = do
    let (now, s0) = gettimeofday clock (start_batch MsgCode.prepare_reqs s)
    s' ←
        for_range (check_p2 learner now) (before s.current_iid s.p2_info.next_unused_iid)
          s.current_iid s0
    leader_open_instances_p2_new (flush s')

  -- The flag tells whether `event_add` succeeds for the next check.
  unfoldable pub leader_periodic_p2_check : Bool → Learner → Proposer → Option Proposer
  leader_periodic_p2_check added learner s = p2_round learner s >>= λ s'. (assert added >> some s')
