-- ===== src/Proposer/Accepts/Requests.antt =====
-- lib/proposer_leader.c, phase 2: an accept request goes out only for an instance that is ready, so
-- each routine keeps what holds of the accept requests.
use libpaxos.Base.{
  ℕ, zero, suc, ◌+◌, ◌-◌, ◌≤◌, ◌≡◌, refl, sym, true, ◌==◌, arith, Option, some, none, not, ◌&&◌,
  ◌||◌, ltb, is_some,
}
use libpaxos.Config.{p2_concurrency}
use libpaxos.Messages.{MsgCode, Item}
use libpaxos.SendBuf.{sendbuf_add_accept_req}
use libpaxos.Values.{Value, Values, vh_get_next_pending}
use libpaxos.Learner.{Learner, learner_is_closed}
use libpaxos.Proposer.{
  TimeVal, Status, Instance, Proposer, has_status, slot, next_ballot, instance_of, for_range,
  before,
}
use libpaxos.Proposer.Timing.{leader_set_expiration, leader_is_expired, gettimeofday}
use libpaxos.Proposer.Phase1.{start_batch, flush, send_prepare}
use libpaxos.Proposer.Phase2.{
  threshold, assign_value, leader_execute_p2, open_p2_expired, leader_open_instances_p2_expired,
  open_p2_new, leader_open_instances_p2_new, restart_from_p1, check_p2, p2_round,
}
use libpaxos.Proposer.Accepts.{
  Adds, Post, Post-some, Post-bind, Post-if, Post-assert, for_range-Post, accept-HasIssued,
}
use libpaxos.Proposer.Accepts.Slots.{Slots-keep, request}
use libpaxos.Proposer.Accepts.Sending.{Slots-accept}
use libpaxos.Proposer.Accepts.Routines.{
  Keeps, Reigns, restarts, has_status_lem, Keeps-Slots, Keeps-clear, Keeps-flush, Keeps-restart,
  send_prepare-Post,
}

-- The value changes, the rest of the instance does not.
record IsSame (ii ii' : Instance) : Type 0 where
  same_iid : ii'.iid ≡ ii.iid
  same_ballot : ii'.my_ballot ≡ ii.my_ballot

abbrev Assigns : Instance → Value × Instance × Values → Type 0
Assigns ii (v, ii', vh) = IsSame ii ii'

assign_value-Post : (ii : Instance) (vh : Values) → Post (Assigns ii) (assign_value ii vh)
unfolding assign_value
assign_value-Post ii vh = by_values ii.p1_value ii.p2_value (vh_get_next_pending vh)
  where
    same : IsSame ii ii
    same = record { same_iid = refl; same_ballot = refl }

    by_values :
        (p1 p2 : Option Value) (next : Option Value × Values)
        → Post (Assigns ii) (elim p1 [
          | some v ↦
              some (v, record ii { p2_value = some v; p1_value = none; p1_value_ballot = 0 }, vh)
          | none ↦ elim p2 [
            | some v ↦ some (v, ii, vh)
            | none ↦ elim next.0 [
              | none ↦ none
              | some v ↦ some (v, record ii { p2_value = some v }, next.1)
            ]
          ]
        ])
    by_values (some v) p2 next = Post-some _ (record { same_iid = refl; same_ballot = refl })
    by_values none (some v) next = Post-some _ same
    by_values none none (none, vh') = record { at = tt }
    by_values none none (some v, vh') = Post-some _ (record { same_iid = refl; same_ballot = refl })

module _ (clock : ℕ → TimeVal) (limit : ℕ) where
  leader_execute_p2-Post :
      (iid : ℕ) (s : Proposer)
      → has_status (instance_of s iid) Status.p1_ready ≡ true
      → Reigns limit s
      → Post (Reigns limit) (leader_execute_p2 clock iid s)
  unfolding leader_execute_p2 leader_set_expiration
  leader_execute_p2-Post iid s ready (low, k) =
      let old = instance_of s iid in
      let st = has_status_lem old Status.p1_ready ready in
      Post-bind (assign_value old s.values) _ (assign_value-Post old s.values) (λ (v, ii, vh) same.
        Post-bind (sendbuf_add_accept_req s.to_acceptors ii.iid ii.my_ballot v) _
          (accept-HasIssued s.to_acceptors ii.iid ii.my_ballot v)
          (λ sb adds.
            let adds' : Adds s.to_acceptors (Item.accept_req (request old v)) sb =
              rw (same.same_iid, same.same_ballot) at adds in
            Post-some _ (
              low,
              Keeps-Slots _ sb
                  (Slots-accept (slot iid) _ v sb (omega (arith, st))
                    (λ later. omega (arith, st, later)) same.same_iid same.same_ballot (omega arith)
                    adds')
                  k,
            )))

  open_p2_expired-Post :
      (iid : ℕ) (s : Proposer) → Reigns limit s → Post (Reigns limit) (open_p2_expired clock iid s)
  unfolding open_p2_expired
  open_p2_expired-Post iid s r =
      let ii = instance_of s iid in
      Post-assert (ii.iid == iid) _ (λ _.
        Post-if (has_status ii Status.p1_ready) _ (some s)
          (λ ready. Post-assert (is_some ii.p2_value || is_some ii.p2_value) _ (λ _.
            Post-bind (leader_execute_p2 clock iid s) _ (leader_execute_p2-Post iid s ready r)
              (λ s' r'. Post-some _ r')))
          (λ _. Post-some s r))

  pub leader_open_instances_p2_expired-Post :
      (s : Proposer)
      → Reigns limit s
      → Post (Reigns limit) (leader_open_instances_p2_expired clock s)
  unfolding leader_open_instances_p2_expired
  leader_open_instances_p2_expired-Post s (low, k) =
      let rounds = before s.current_iid s.p2_info.next_unused_iid in
      let s0 = start_batch MsgCode.accept_reqs s in
      Post-bind (for_range (open_p2_expired clock) rounds s.current_iid s0) _
        (for_range-Post (λ i. Reigns limit) (open_p2_expired clock) open_p2_expired-Post rounds
          s.current_iid s0 (low, Keeps-clear MsgCode.accept_reqs s.this_proposer_id k))
        (λ s' (low', k'). Post-some (flush s') (low', Keeps-flush k'))

  open_p2_new-Post :
      (rounds count : ℕ) (s : Proposer)
      → Reigns limit s
      → Post (λ r. Reigns limit r.1) (open_p2_new clock rounds count s)
  unfolding open_p2_new
  open_p2_new-Post zero count s r = Post-some (count, s) r
  open_p2_new-Post (suc rounds) count s r =
      let next = s.p2_info.next_unused_iid in
      let ii = instance_of s next in
      Post-assert (not (is_some ii.p2_value)) _ (λ _.
        Post-if (not (is_some ii.p1_value) && (s.values.vh_list_size == 0)) (some (count, s)) _
          (λ _. Post-some (count, s) r)
          (λ _.
            Post-if (not (has_status ii Status.p1_ready) || not (ii.iid == next)) _ _
              (λ _. Post-some _ r)
              (λ e.
                let ready : has_status ii Status.p1_ready ≡ true = ground arith in
                Post-bind (leader_execute_p2 clock next s) _ (leader_execute_p2-Post next s ready r)
                  (λ s' r'. open_p2_new-Post rounds (count + 1) _ r'))))

  pub leader_open_instances_p2_new-Post :
      (s : Proposer) → Reigns limit s → Post (Reigns limit) (leader_open_instances_p2_new clock s)
  unfolding leader_open_instances_p2_new
  leader_open_instances_p2_new-Post s (low, k) =
      Post-if (ltb threshold s.p2_info.open_count) (some s) _ (λ _. Post-some s (low, k))
        (λ _.
          Post-bind
            (open_p2_new clock (p2_concurrency + 1 - s.p2_info.open_count) 0
              (start_batch MsgCode.accept_reqs s))
            _
            (open_p2_new-Post (p2_concurrency + 1 - s.p2_info.open_count) 0
              (start_batch MsgCode.accept_reqs s)
              (low, Keeps-clear MsgCode.accept_reqs s.this_proposer_id k))
            (λ (count, s') (low', k'). Post-some _ (low', Keeps-flush k')))

  restart_from_p1-Post :
      (iid : ℕ) (s : Proposer)
      → has_status (instance_of s iid) Status.p2_pending ≡ true
      → Reigns limit s
      → Post (Reigns limit) (restart_from_p1 clock iid s)
  unfolding restart_from_p1 leader_set_expiration
  restart_from_p1-Post iid s pending (low, k) =
      let ii = instance_of s iid in
      let st = has_status_lem ii Status.p2_pending pending in
      Post-bind
        (send_prepare clock iid
          (record ii { status = Status.p1_pending; my_ballot = next_ballot ii.my_ballot }) s)
        _
        (send_prepare-Post clock
          (λ s'.
            (s'.p1_info.highest_open ≤ limit)
            × Keeps s'.this_proposer_id (restarts s' + 1) s'.p1_info.highest_open s'.proposer_state
                s'.to_acceptors)
          iid _ s
          (λ sb old. (low, Keeps-restart sb (slot iid) _ old (omega (arith, st)) refl refl k)))
        (λ s' (low', k').
          let m : restarts s' + 1
              ≡ s'.lead_counters.p1_timeout + (s'.lead_counters.p2_timeout + 1) =
            omega arith in
          Post-some _ (low', rw (sym m) k'))

  check_p2-Post :
      (learner : Learner) (now : TimeVal) (iid : ℕ) (s : Proposer)
      → Reigns limit s
      → Post (Reigns limit) (check_p2 clock learner now iid s)
  unfolding check_p2
  check_p2-Post learner now iid s (low, k) =
      let ii = instance_of s iid in
      Post-if (not (has_status ii Status.p2_pending)) (some s) _ (λ _. Post-some s (low, k))
        (λ e.
          let pending : has_status ii Status.p2_pending ≡ true = ground arith in
          let st = has_status_lem ii Status.p2_pending pending in
          Post-if (learner_is_closed learner iid) _ _
            (λ _. Post-some _ (
              low,
              Keeps-Slots _ s.to_acceptors
                  (Slots-keep (slot iid) _ refl refl (λ _. omega (arith, st)) (λ _. omega arith)) k,
            ))
            (λ _.
              Post-if (not (leader_is_expired ii.timeout now)) (some s) _
                (λ _. Post-some s (low, k)) (λ _. restart_from_p1-Post iid s pending (low, k))))

  pub p2_round-Post :
      (learner : Learner) (s : Proposer)
      → Reigns limit s
      → Post (Reigns limit) (p2_round clock learner s)
  unfolding p2_round
  p2_round-Post learner s (low, k) =
      let (now, s0) = gettimeofday clock (start_batch MsgCode.prepare_reqs s) in
      let rounds = before s.current_iid s.p2_info.next_unused_iid in
      Post-bind (for_range (check_p2 clock learner now) rounds s.current_iid s0) _
        (for_range-Post (λ i. Reigns limit) (check_p2 clock learner now) (check_p2-Post learner now)
          rounds s.current_iid s0 (low, Keeps-clear MsgCode.prepare_reqs s.this_proposer_id k))
        (λ s' (low', k'). leader_open_instances_p2_new-Post (flush s') (low', Keeps-flush k'))
