-- ===== src/Proposer/Sound/First.antt =====
-- lib/proposer_leader.c, phase 1: the routines succeed, and keep what a leader keeps.
use libpaxos.Base.{ℕ, ◌+◌, ◌≤◌, ◌<◌, ◌≡◌, inr, refl, true, ◌==◌, ==_iff, arith, ◌&&◌}
use libpaxos.Config.{p1_timeout_interval}
use libpaxos.Messages.{MsgCode}
use libpaxos.SendBuf.{SendBuf, sendbuf_clear}
use libpaxos.Proposer.{
  TimeVal, Status, Instance, Phase2Info, Proposer, has_status, instance_of, set_instance, upto,
}
use libpaxos.Proposer.Timing.{leader_set_expiration, leader_is_expired}
use libpaxos.Proposer.Phase1.{
  start_batch, send_prepare, restarted, check_p1_pending, leader_check_p1_pending,
}
use libpaxos.Proposer.Opening.{Collects, add-returns}
use libpaxos.Proposer.Accepts.Routines.{has_status_lem}
use libpaxos.Proposer.Sound.{
  Succeeds, succeeds, Succeeds-bind, Succeeds-if, Succeeds-assert, for_range-Succeeds,
}
use libpaxos.Proposer.Sound.Array.{Counts-write, Window-keep, Sound}

-- Here the counter of phase 2 is a number by itself: a promotion sets it later.
abbrev pub SoundWith : ℕ → ℕ → ℕ → ℕ → Proposer → Type 0
SoundWith cur top next opened s =
    Sound cur top next s.p1_info.pending_count s.p1_info.ready_count opened s.proposer_state
      s.values

module _ (clock : ℕ → TimeVal) where
  -- A prepare request goes into a buffer that collects them.
  pub send_prepare-Succeeds :
      (Q : Proposer → Type 0) (iid : ℕ) (ii : Instance) (s : Proposer)
      → Collects s.to_acceptors
      → ((sb : SendBuf)
          → Collects sb
          → Q (
              set_instance
                (record s { to_acceptors = sb; readings = s.readings + 1 })
                iid
                (leader_set_expiration (clock s.readings) ii p1_timeout_interval)))
      → Succeeds Q (send_prepare clock iid ii s)
  unfolding send_prepare
  send_prepare-Succeeds Q iid ii s c q =
      let (sb, e, c') = add-returns s.to_acceptors ii.iid ii.my_ballot c in
      rw e (succeeds (q sb c'))

  module _ (cur top next opened : ℕ) (p2 : Phase2Info) (id leader : ℕ) where
    -- Phase 1 does not touch the counters of phase 2.
    abbrev pub InPhase1 : Proposer → Type 0
    InPhase1 s =
        (s.current_iid ≡ cur)
        × (s.p1_info.highest_open ≡ top)
        × (s.p2_info ≡ p2)
        × (s.this_proposer_id ≡ id)
        × (s.current_leader_id ≡ leader)

    -- What the rounds of a loop over the window keep.
    abbrev Round : ℕ → Proposer → Type 0
    Round i s = (cur ≤ i) × Collects s.to_acceptors × InPhase1 s × SoundWith cur top next opened s

    check_p1_pending-Succeeds :
        (now : TimeVal) (i : ℕ) (s : Proposer)
        → i < top + 1
        → Round i s
        → Succeeds (Round (i + 1)) (check_p1_pending clock now i s)
    unfolding check_p1_pending leader_set_expiration
    check_p1_pending-Succeeds now i s b (low, c, fixed, g) =
        let ii = instance_of s i in
        let (held, number) = g.window.held i low (omega (arith, b)) in
        Succeeds-assert (ii.iid == i) ((==_iff ii.iid i).1 number) (
          Succeeds-if (has_status ii Status.p1_pending && leader_is_expired ii.timeout now)
            (λ e.
              let pending : has_status ii Status.p1_pending ≡ true = ground arith in
              let st = has_status_lem ii Status.p1_pending pending in
              Succeeds-bind
                (send_prepare-Succeeds (Round (i + 1)) i (restarted clock ii) s c (λ sb c'. (
                  omega (arith, low),
                  c',
                  fixed,
                  record {
                    window = Window-keep i _ held refl refl held (λ h. omega (arith, st)) g.window;
                    counts =
                        Counts-write s.p1_info.pending_count s.p1_info.ready_count opened i _ refl
                          (omega arith) refl (inr (omega arith)) g.counts;
                    queue = g.queue;
                    few_open = g.few_open;
                  },
                )))
                (λ s' r. succeeds r))
            (λ e. succeeds (omega (arith, low), c, fixed, g)))

    pub leader_check_p1_pending-Succeeds :
        (s : Proposer)
        → InPhase1 s
        → SoundWith cur top next opened s
        → Succeeds
            (λ s'. InPhase1 s' × SoundWith cur top next opened s')
            (leader_check_p1_pending clock s)
    unfolding leader_check_p1_pending sendbuf_clear
    leader_check_p1_pending-Succeeds s (e, e', e'', d, d') g =
        let s0 = record (start_batch MsgCode.prepare_reqs s) { readings = s.readings + 1 } in
        let lo = g.window.low in
        let hi = g.window.high in
        let fits : s.current_iid + upto s.current_iid s.p1_info.highest_open ≤ top + 1 =
          omega (arith, e, e', lo, hi) in
        Succeeds-bind
          (for_range-Succeeds Round (check_p1_pending clock (clock s.readings)) (top + 1)
            (check_p1_pending-Succeeds (clock s.readings))
            (upto s.current_iid s.p1_info.highest_open) s.current_iid s0 fits
            (omega (arith, e), refl, (e, e', e'', d, d'), g))
          (λ s' (_, _, fixed, g'). succeeds (fixed, g'))
