-- ===== src/Proposer/Sound/Timeouts.antt =====
-- lib/proposer_leader.c, the timer of phase 2: instances are closed, or go back to phase 1.
use libpaxos.Base.{ℕ, ◌+◌, ◌≤◌, ◌<◌, ◌≡◌, inr, refl, ◌∙◌, true, arith, not}
use libpaxos.Config.{proposer_array_size}
use libpaxos.Messages.{MsgCode}
use libpaxos.SendBuf.{sendbuf_clear}
use libpaxos.Learner.{Learner, learner_is_closed}
use libpaxos.Proposer.{
  TimeVal, Status, Proposer, has_status, slot, instance_of, before, next_ballot, add32, sub32,
}
use libpaxos.Proposer.Timing.{leader_set_expiration, leader_is_expired}
use libpaxos.Proposer.Phase1.{start_batch}
use libpaxos.Proposer.Phase2.{restart_from_p1, check_p2, p2_round}
use libpaxos.Proposer.Opening.{Collects}
use libpaxos.Proposer.Leader.{opened_by_me}
use libpaxos.Proposer.Accepts.Routines.{has_status_lem}
use libpaxos.Proposer.Sound.{
  Succeeds, succeeds, Succeeds-bind, Succeeds-map, Succeeds-if, for_range-Succeeds,
}
use libpaxos.Proposer.Sound.Count.{count-pos, count-le}
use libpaxos.Proposer.Sound.Array.{
  Counts-write, Window-keep, SoundIn, Bounds, SameIds, IsSound, Sound-at, slot-lt,
}
use libpaxos.Proposer.Sound.First.{send_prepare-Succeeds}
use libpaxos.Proposer.Sound.New.{leader_open_instances_p2_new-Succeeds}

module _ (clock : ℕ → TimeVal) where
  module _ (cur top next id leader : ℕ) where
    abbrev Timing : ℕ → Proposer → Type 0
    Timing i s =
        (cur ≤ i)
        × Collects s.to_acceptors
        × Bounds cur top next id leader s
        × SoundIn cur top next s

    restart_from_p1-Succeeds :
        (i : ℕ) (s : Proposer)
        → i < next
        → has_status (instance_of s i) Status.p2_pending ≡ true
        → Timing i s
        → Succeeds (Timing (i + 1)) (restart_from_p1 clock i s)
    unfolding restart_from_p1 leader_set_expiration
    restart_from_p1-Succeeds i s b sent (low, c, fixed, g) =
        let ii = instance_of s i in
        let st = has_status_lem ii Status.p2_pending sent in
        let most = g.counts.few in
        let below = g.window.high in
        let (held, number) = g.window.held i low (omega (arith, b, below)) in
        let has_value = (g.window.used (slot i) held).begun (omega (arith, b, number)) in
        Succeeds-bind
          (send_prepare-Succeeds clock
            (λ s'. Timing (i + 1) (record s' {
              p1_info = record s'.p1_info { pending_count = add32 s'.p1_info.pending_count 1 };
            }))
            i (record ii { status = Status.p1_pending; my_ballot = next_ballot ii.my_ballot }) s c
            (λ sb c'. (
              omega (arith, low),
              c',
              fixed,
              record {
                window =
                    Window-keep i _ (omega (arith, st)) refl refl (omega arith) (λ h. omega arith)
                      g.window;
                counts =
                    Counts-write (add32 s.p1_info.pending_count 1) s.p1_info.ready_count
                      s.p2_info.open_count i _ (ground (arith, st, most)) (ground (arith, st))
                      (ground (arith, st, has_value)) (inr (ground (arith, st, most))) g.counts;
                queue = g.queue;
                few_open = g.few_open;
              },
            )))
          (λ s' r. succeeds r)

    check_p2-Succeeds :
        (learner : Learner) (now : TimeVal) (i : ℕ) (s : Proposer)
        → i < next
        → Timing i s
        → Succeeds (Timing (i + 1)) (check_p2 clock learner now i s)
    unfolding check_p2
    check_p2-Succeeds learner now i s b (low, c, fixed, g) =
        let ii = instance_of s i in
        let same : Timing (i + 1) s = (omega (arith, low), c, fixed, g) in
        Succeeds-if (not (has_status ii Status.p2_pending)) (λ _. succeeds same)
          (λ sent.
            let test : has_status ii Status.p2_pending ≡ true = ground arith in
            let st = has_status_lem ii Status.p2_pending test in
            let below = g.window.high in
            let (held, number) = g.window.held i low (omega (arith, b, below)) in
            Succeeds-if (learner_is_closed learner i)
              (λ _.
                let opened : opened_by_me ii ≡ true = ground arith in
                let one =
                  count-pos opened_by_me s.proposer_state proposer_array_size (slot i) (slot-lt i)
                    opened in
                let all = g.counts.all_opened in
                let few = g.few_open in
                let at_most = count-le opened_by_me s.proposer_state proposer_array_size in
                succeeds (
                  omega (arith, low),
                  c,
                  fixed,
                  record {
                    window =
                        Window-keep i _ held refl refl (omega arith)
                          (λ h. absurd (omega (arith, h, number, b))) g.window;
                    counts =
                        Counts-write s.p1_info.pending_count s.p1_info.ready_count
                          (sub32 s.p2_info.open_count 1) i _ (ground (arith, st))
                          (ground (arith, st)) (ground (arith, st, one, all, at_most))
                          (inr (ground (arith, st))) g.counts;
                    queue = g.queue;
                    few_open = omega (arith, few, one, all, at_most);
                  },
                ))
              (λ _.
                Succeeds-if (not (leader_is_expired ii.timeout now)) (λ _. succeeds same)
                  (λ _. restart_from_p1-Succeeds i s b test (low, c, fixed, g))))

  pub p2_round-Succeeds :
      (learner : Learner) (s : Proposer)
      → IsSound s
      → Succeeds (λ s'. SameIds s s' × IsSound s') (p2_round clock learner s)
  unfolding p2_round sendbuf_clear
  p2_round-Succeeds learner s g =
      let cur = s.current_iid in
      let top = s.p1_info.highest_open in
      let next = s.p2_info.next_unused_iid in
      let id = s.this_proposer_id in
      let leader = s.current_leader_id in
      let s0 = record (start_batch MsgCode.prepare_reqs s) { readings = s.readings + 1 } in
      let lo = g.window.low in
      Succeeds-bind
        (for_range-Succeeds (Timing cur top next id leader)
          (check_p2 clock learner (clock s.readings)) next
          (check_p2-Succeeds cur top next id leader learner (clock s.readings)) (before cur next)
          cur s0 (omega (arith, lo)) (omega arith, refl, (refl, refl, refl, refl, refl), g))
        (λ s' (_, _, (a, b, e, d, f), g').
          Succeeds-map
            (leader_open_instances_p2_new-Succeeds clock cur top _ (
              Sound-at cur top s'.p2_info.next_unused_iid s'.p1_info.pending_count
                s'.p1_info.ready_count s'.p2_info.open_count refl refl e refl refl refl g'))
            (λ s'' (a', b', (d', f'), h). (
              (d' ∙ d, f' ∙ f),
              Sound-at s''.current_iid s''.p1_info.highest_open s''.p2_info.next_unused_iid
                  s''.p1_info.pending_count s''.p1_info.ready_count s''.p2_info.open_count (a' ∙ a)
                  (b' ∙ b) refl refl refl refl h,
            )))
