-- ===== src/Proposer/Accepts/Routines.antt =====
-- lib/proposer_leader.c: each routine of a leader keeps what holds of its accept requests.
use libpaxos.Base.{
  ℕ, ◌+◌, ◌-◌, ◌/◌, ◌%◌, ◌≤◌, ◌<◌, ◌≡◌, refl, sym, ap, true, ◌==◌, ==_iff, arith, update, some,
  ◌&&◌, ◌^◌, ltb, leb,
}
use libpaxos.Config.{max_n_of_proposers, u64_mod, preexec_win_size}
use libpaxos.Messages.{MsgCode, AcceptReq}
use libpaxos.SendBuf.{SendBuf, sendbuf_clear, sendbuf_flush, sendbuf_add_prepare_req}
use libpaxos.Proposer.{
  TimeVal, Status, Instance, Proposer, status_number, has_status, slot, add32, next_ballot,
  instance_of, set_instance, for_range, upto,
}
use libpaxos.Proposer.Ballots.{no_wrap}
use libpaxos.Proposer.Timing.{leader_set_expiration, leader_is_expired, gettimeofday}
use libpaxos.Proposer.Phase1.{
  start_batch, flush, send_prepare, restarted, check_p1_pending, leader_check_p1_pending, open_p1,
  leader_open_instances_p1, p1_round,
}
use libpaxos.Proposer.Accepts.{
  HasIssued, Post, Post-some, Post-bind, Post-if, Post-assert, for_range-Post, clear-HasIssued,
  flush-HasIssued, prepare-HasIssued,
}
use libpaxos.Proposer.Accepts.Slots.{Slots, IsHeld, Slots-buffer, Slots-open, Slots-restart}

-- The restarts of a reign: the counters are reset at its start.
abbrev pub restarts : Proposer → ℕ
restarts s = s.lead_counters.p1_timeout + s.lead_counters.p2_timeout

-- What holds as long as the ballots do not wrap around.
pub record Keeps (id n top : ℕ) (state : ℕ → Instance) (sb : SendBuf) : Type 0 where
  pub is_proposer : id < max_n_of_proposers
  pub slots : n ≤ no_wrap → Slots id n top state sb

-- The same of a proposer that has opened the instances up to a number.
abbrev pub KeepsTo : ℕ → Proposer → Type 0
KeepsTo top s = Keeps s.this_proposer_id (restarts s) top s.proposer_state s.to_acceptors

-- With a limit for the instances opened.
abbrev pub Reigns : ℕ → Proposer → Type 0
Reigns limit s = (s.p1_info.highest_open ≤ limit) × KeepsTo s.p1_info.highest_open s

pub has_status_lem :
    (ii : Instance) (st : Status)
    → has_status ii st ≡ true
    → status_number ii.status ≡ status_number st
has_status_lem ii st h = (==_iff (status_number ii.status) (status_number st)).0 h

module _ {id n top : ℕ} {state : ℕ → Instance} {sb : SendBuf} where
  pub Keeps-Slots :
      (state' : ℕ → Instance) (sb' : SendBuf)
      → (Slots id n top state sb → Slots id n top state' sb')
      → Keeps id n top state sb
      → Keeps id n top state' sb'
  Keeps-Slots state' sb' f k = record { is_proposer = k.is_proposer; slots = λ r. f (k.slots r) }

  pub Keeps-clear :
      (type : MsgCode) (sender : ℕ)
      → Keeps id n top state sb
      → Keeps id n top state (sendbuf_clear sb type sender)
  Keeps-clear type sender =
      Keeps-Slots state (sendbuf_clear sb type sender)
        (Slots-buffer (sendbuf_clear sb type sender) (clear-HasIssued sb type sender))

  pub Keeps-flush : Keeps id n top state sb → Keeps id n top state (sendbuf_flush sb)
  Keeps-flush =
      Keeps-Slots state (sendbuf_flush sb) (Slots-buffer (sendbuf_flush sb) (flush-HasIssued sb))

  pub Keeps-restart :
      (sb' : SendBuf) (i : ℕ) (ii : Instance)
      → ((ar : AcceptReq) → HasIssued sb' ar → HasIssued sb ar)
      → IsHeld (state i)
      → ii.iid ≡ (state i).iid
      → ii.my_ballot ≡ next_ballot (state i).my_ballot
      → Keeps id n top state sb
      → Keeps id (n + 1) top (update state i ii) sb'
  Keeps-restart sb' i ii old held e e' k = record {
    is_proposer = k.is_proposer;
    slots = λ r.
        Slots-restart i ii k.is_proposer (omega (arith, r)) held e e'
          (Slots-buffer sb' old (k.slots (omega (arith, r))));
  }

  pub Keeps-open :
      (sb' : SendBuf) (ii : Instance)
      → ((ar : AcceptReq) → HasIssued sb' ar → HasIssued sb ar)
      → ii.iid ≡ top + 1
      → ii.my_ballot ≡ max_n_of_proposers + id
      → Keeps id n top state sb
      → Keeps id n (top + 1) (update state (slot (top + 1)) ii) sb'
  Keeps-open sb' ii old e e' k = record {
    is_proposer = k.is_proposer;
    slots = λ r. Slots-open ii e e' (Slots-buffer sb' old (k.slots r));
  }

module _ (clock : ℕ → TimeVal) where
  -- Behind a prepare request, nothing else is new in the buffer.
  pub send_prepare-Post :
      (Q : Proposer → Type 0) (iid : ℕ) (ii : Instance) (s : Proposer)
      → ((sb : SendBuf)
          → ((ar : AcceptReq) → HasIssued sb ar → HasIssued s.to_acceptors ar)
          → Q (
              set_instance
                (record s { to_acceptors = sb; readings = s.readings + 1 })
                iid
                (leader_set_expiration (clock s.readings) ii 30000)))
      → Post Q (send_prepare clock iid ii s)
  unfolding send_prepare
  send_prepare-Post Q iid ii s q =
      Post-bind (sendbuf_add_prepare_req s.to_acceptors ii.iid ii.my_ballot) _
        (prepare-HasIssued s.to_acceptors ii.iid ii.my_ballot) (λ sb k. Post-some _ (q sb k))

  module _ (limit : ℕ) where
    check_p1_pending-Post :
        (now : TimeVal) (iid : ℕ) (s : Proposer)
        → Reigns limit s
        → Post (Reigns limit) (check_p1_pending clock now iid s)
    unfolding check_p1_pending leader_set_expiration
    check_p1_pending-Post now iid s (low, k) =
        let ii = instance_of s iid in
        Post-assert (ii.iid == iid) _ (λ e.
          Post-if (has_status ii Status.p1_pending && leader_is_expired ii.timeout now) _ (some s)
            (λ e'.
              let st : has_status ii Status.p1_pending ≡ true = ground arith in
              let held = has_status_lem ii Status.p1_pending st in
              Post-bind (send_prepare clock iid (restarted clock ii) s) _
                (send_prepare-Post
                  (λ s'.
                    (s'.p1_info.highest_open ≤ limit)
                    × Keeps s'.this_proposer_id (restarts s' + 1) s'.p1_info.highest_open
                        s'.proposer_state s'.to_acceptors)
                  iid (restarted clock ii) s
                  (λ sb old.
                    (low, Keeps-restart sb (slot iid) _ old (omega (arith, held)) refl refl k)))
                (λ s' (low', k').
                  let m : restarts s' + 1
                      ≡ (s'.lead_counters.p1_timeout + 1) + s'.lead_counters.p2_timeout =
                    omega arith in
                  Post-some _ (low', rw (sym m) k')))
            (λ e'. Post-some s (low, k)))

    leader_check_p1_pending-Post :
        (s : Proposer) → Reigns limit s → Post (Reigns limit) (leader_check_p1_pending clock s)
    unfolding leader_check_p1_pending
    leader_check_p1_pending-Post s (low, k) =
        let (now, s0) = gettimeofday clock (start_batch MsgCode.prepare_reqs s) in
        Post-bind
          (for_range (check_p1_pending clock now) (upto s.current_iid s.p1_info.highest_open)
            s.current_iid s0)
          _
          (for_range-Post (λ i. Reigns limit) (check_p1_pending clock now)
            (λ i. check_p1_pending-Post now i) (upto s.current_iid s.p1_info.highest_open)
            s.current_iid s0 (low, Keeps-clear MsgCode.prepare_reqs s.this_proposer_id k))
          (λ s' (low', k'). Post-some (flush s') (low', Keeps-flush k'))

  -- The loop that opens instances: those below `i` are opened, and the counter is still the old.
  abbrev Opening : ℕ → ℕ → Proposer → Type 0
  Opening h i s = (s.p1_info.highest_open ≡ h) × ((top : ℕ) × (top + 1 ≡ i) × KeepsTo top s)

  open_p1-Post :
      (h iid : ℕ) (s : Proposer)
      → Opening h iid s
      → Post (Opening h (iid + 1)) (open_p1 clock iid s)
  unfolding open_p1 leader_set_expiration
  open_p1-Post h iid s (e, (top, e', k)) =
      Post-assert (has_status (instance_of s iid) Status.empty) _ (λ _.
        send_prepare-Post (Opening h (iid + 1)) iid _ s (λ sb old.
          (e, (top + 1, ap (λ x. x + 1) e', rw (sym e') (Keeps-open sb _ old refl refl k)))))

  leader_open_instances_p1-Post :
      (limit : ℕ) (s : Proposer)
      → limit + preexec_win_size < u64_mod
      → Reigns limit s
      → Post (Reigns (limit + preexec_win_size)) (leader_open_instances_p1 clock s)
  unfolding leader_open_instances_p1
  leader_open_instances_p1-Post limit s b (low, k) =
      let h = s.p1_info.highest_open in
      let active_count = add32 s.p1_info.pending_count s.p1_info.ready_count in
      let to_open = preexec_win_size - active_count in
      let few : to_open ≤ preexec_win_size = omega arith in
      Post-assert (ltb active_count (2 ^ 31)) _ (λ _.
        Post-if (leb (preexec_win_size / 2) active_count) (some s) _
          (λ _. Post-some s (omega (arith, low), k))
          (λ _. Post-assert (leb (preexec_win_size / 2) to_open) _ (λ _.
            Post-bind
              (for_range (open_p1 clock) to_open (h + 1) (start_batch MsgCode.prepare_reqs s)) _
              (for_range-Post (Opening h) (open_p1 clock) (open_p1-Post h) to_open (h + 1)
                (start_batch MsgCode.prepare_reqs s)
                (refl, (h, refl, Keeps-clear MsgCode.prepare_reqs s.this_proposer_id k)))
              (λ s' (e, (top, e', k')).
                let at : (s'.p1_info.highest_open + to_open) % u64_mod ≡ top =
                  rw e (omega (arith, e', low, few, b)) in
                Post-some _ (rw at (omega (arith, e', low, few), Keeps-flush k'))))))

  pub p1_round-Post :
      (limit : ℕ) (s : Proposer)
      → limit + preexec_win_size < u64_mod
      → Reigns limit s
      → Post (Reigns (limit + preexec_win_size)) (p1_round clock s)
  unfolding p1_round
  p1_round-Post limit s b r =
      Post-bind (leader_check_p1_pending clock s) (leader_open_instances_p1 clock)
        (leader_check_p1_pending-Post limit s r)
        (λ s' r'. leader_open_instances_p1-Post limit s' b r')
