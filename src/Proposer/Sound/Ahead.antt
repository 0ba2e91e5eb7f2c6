-- ===== src/Proposer/Sound/Ahead.antt =====
-- lib/proposer_leader.c, phase 1: instances are opened ahead of their use.
use libpaxos.Base.{
  ℕ, ◌+◌, ◌-◌, ◌/◌, ◌%◌, ◌^◌, ◌≤◌, ◌<◌, ◌≡◌, inl, refl, sym, ◌∙◌, true, arith, ltb, leb,
}
use libpaxos.Config.{u64_mod, proposer_array_size, preexec_win_size}
use libpaxos.Messages.{MsgCode}
use libpaxos.SendBuf.{sendbuf_clear}
use libpaxos.Proposer.{
  TimeVal, Status, Phase2Info, Proposer, status_number, has_status, slot, instance_of, add32,
}
use libpaxos.Proposer.Timing.{leader_set_expiration}
use libpaxos.Proposer.Phase1.{start_batch, open_p1, leader_open_instances_p1, p1_round}
use libpaxos.Proposer.Opening.{Collects}
use libpaxos.Proposer.Sound.{
  Succeeds, succeeds, Succeeds-bind, Succeeds-map, Succeeds-if, Succeeds-assert, for_range-Succeeds,
}
use libpaxos.Proposer.Sound.Array.{Counts-write, Sound, SameIds, Sound-at}
use libpaxos.Proposer.Sound.Changes.{Window-open, next_slot_free}
use libpaxos.Proposer.Sound.First.{
  SoundWith, send_prepare-Succeeds, InPhase1, leader_check_p1_pending-Succeeds,
}

module _ (clock : ℕ → TimeVal) where
  module _ (cur top next opened : ℕ) (p2 : Phase2Info) (id leader : ℕ) where
    -- What the rounds of the loop that opens instances keep: the counters are still the old ones.
    abbrev Opening : ℕ → ℕ → ℕ → Proposer → Type 0
    Opening pending ready i s =
        Collects s.to_acceptors
        × InPhase1 clock cur top next opened p2 id leader s
        × (s.p1_info.pending_count ≡ pending)
        × (s.p1_info.ready_count ≡ ready)
        × ((d : ℕ) × (i ≡ top + 1 + d)
            × Sound cur (top + d) next (pending + d) ready opened s.proposer_state s.values)

    open_p1-Succeeds :
        (pending ready rounds : ℕ)
        → pending + ready + rounds ≤ preexec_win_size
        → top + 1 + rounds < cur + proposer_array_size
        → top + 1 + rounds < u64_mod
        → (i : ℕ) (s : Proposer) → i < top + 1 + rounds
        → Opening pending ready i s
        → Succeeds (Opening pending ready (i + 1)) (open_p1 clock i s)
    unfolding open_p1 leader_set_expiration
    open_p1-Succeeds pending ready rounds few narrow bound i s b (c, fixed, p, r, (d, at_d, g)) =
        let ii = instance_of s i in
        let free : status_number ii.status ≡ 0 =
          next_slot_free i (omega (arith, at_d)) (omega (arith, b, narrow)) g.window in
        let is_empty : has_status ii Status.empty ≡ true = ground arith in
        let no_value = g.window.unused (slot i) free in
        Succeeds-assert (has_status ii Status.empty) is_empty (
          send_prepare-Succeeds clock (Opening pending ready (i + 1)) i _ s c (λ sb c'. (
            c',
            fixed,
            p,
            r,
            (
              d + 1,
              omega (arith, at_d),
              (let e : top + (d + 1) ≡ i = omega (arith, at_d) in
                  let e' : pending + (d + 1) ≡ pending + d + 1 = omega arith in
                  rw (e, e')
                    (record {
                      window =
                          Window-open i _ (omega (arith, at_d)) (omega (arith, b, narrow))
                            (omega (arith, b, bound)) refl refl no_value g.window;
                      counts =
                          Counts-write (pending + d + 1) ready opened i _ (ground (arith, free))
                            (ground (arith, free)) (ground (arith, free, no_value))
                            (inl (omega (arith, few, at_d, b))) g.counts;
                      queue = g.queue;
                      few_open = g.few_open;
                    })),
            ),
          )))

  -- What opening instances leaves.
  abbrev pub Opened : ℕ → ℕ → Proposer → Proposer → Type 0
  Opened next opened s s' =
      (s'.current_iid ≡ s.current_iid)
      × (s'.p2_info ≡ s.p2_info)
      × SameIds s s'
      × SoundWith s.current_iid s'.p1_info.highest_open next opened s'

  leader_open_instances_p1-Succeeds :
      (next opened : ℕ) (s : Proposer)
      → s.p1_info.highest_open + 1 + preexec_win_size < s.current_iid + proposer_array_size
      → s.p1_info.highest_open + 1 + preexec_win_size < u64_mod
      → SoundWith s.current_iid s.p1_info.highest_open next opened s
      → Succeeds (Opened next opened s) (leader_open_instances_p1 clock s)
  unfolding leader_open_instances_p1 sendbuf_clear
  leader_open_instances_p1-Succeeds next opened s narrow bound g =
      let cur = s.current_iid in
      let top = s.p1_info.highest_open in
      let p2 = s.p2_info in
      let id = s.this_proposer_id in
      let leader = s.current_leader_id in
      let pending = s.p1_info.pending_count in
      let ready = s.p1_info.ready_count in
      let most = g.counts.few in
      let sum : add32 pending ready ≡ pending + ready = omega (arith, most) in
      let to_open = preexec_win_size - add32 pending ready in
      Succeeds-assert (ltb (add32 pending ready) (2 ^ 31)) (rw sum (ground (arith, most))) (
        Succeeds-if (leb (preexec_win_size / 2) (add32 pending ready))
          (λ _. succeeds (refl, refl, (refl, refl), g))
          (λ e.
            let less : pending + ready < 150 = ground (arith, e, sum) in
            let rounds : to_open ≡ preexec_win_size - (pending + ready) = omega (arith, sum) in
            Succeeds-assert (leb (preexec_win_size / 2) to_open) (ground (arith, less, rounds)) (
              Succeeds-bind
                (for_range-Succeeds (Opening cur top next opened p2 id leader pending ready)
                  (open_p1 clock) (top + 1 + to_open)
                  (open_p1-Succeeds cur top next opened p2 id leader pending ready to_open
                    (omega (arith, less, rounds)) (omega (arith, narrow)) (omega (arith, bound)))
                  to_open (top + 1) (start_batch MsgCode.prepare_reqs s) (omega arith)
                  (
                    refl,
                    (refl, refl, refl, refl, refl),
                    refl,
                    refl,
                    (
                      0,
                      omega arith,
                      Sound-at cur (top + 0) next (pending + 0) ready opened refl (omega arith) refl
                          (omega arith) refl refl g,
                    ),
                  ))
                (λ s' (c, (a, b, f, e1, e2), p, r, (d, at_d, g')).
                  let all : d ≡ to_open = omega (arith, at_d) in
                  succeeds (
                    a,
                    f,
                    (e1, e2),
                    Sound-at cur ((s'.p1_info.highest_open + to_open) % u64_mod) next
                        (add32 s'.p1_info.pending_count to_open) s'.p1_info.ready_count opened refl
                        (omega (arith, b, all, bound)) refl (omega (arith, p, all, less)) r refl g',
                  )))))

  pub p1_round-Succeeds :
      (next opened : ℕ) (s : Proposer)
      → s.p1_info.highest_open + 1 + preexec_win_size < s.current_iid + proposer_array_size
      → s.p1_info.highest_open + 1 + preexec_win_size < u64_mod
      → SoundWith s.current_iid s.p1_info.highest_open next opened s
      → Succeeds (Opened next opened s) (p1_round clock s)
  unfolding p1_round
  p1_round-Succeeds next opened s narrow bound g =
      let cur = s.current_iid in
      let top = s.p1_info.highest_open in
      Succeeds-bind
        (leader_check_p1_pending-Succeeds clock cur top next opened s.p2_info s.this_proposer_id
          s.current_leader_id s (refl, refl, refl, refl, refl) g)
        (λ s' ((a, b, c, d, e), g').
          Succeeds-map
            (leader_open_instances_p1-Succeeds next opened s' (omega (arith, narrow, a, b))
              (omega (arith, bound, b))
              (Sound-at s'.current_iid s'.p1_info.highest_open next s'.p1_info.pending_count
                s'.p1_info.ready_count opened a b refl refl refl refl g'))
            (λ s'' (a', c', (d', e'), h). (
              a' ∙ a,
              c' ∙ c,
              (d' ∙ d, e' ∙ e),
              Sound-at cur s''.p1_info.highest_open next s''.p1_info.pending_count
                  s''.p1_info.ready_count opened (sym a) refl refl refl refl refl h,
            )))
