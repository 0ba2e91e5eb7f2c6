-- ===== src/Proposer/Sound/Promise.antt =====
-- lib/proposer.c: a batch of promises keeps what a leader keeps, and opens phase 2.
use libpaxos.Base.{
  ℕ, ◌≡◌, inl, inr, refl, ◌∙◌, true, ◌==◌, arith, not, ltb, ◌||◌, Bool-cases, List, [], ◌∷◌,
  is_some, Option, some,
}
use libpaxos.Config.{quorum, proposer_array_size}
use libpaxos.Messages.{PrepareAck}
use libpaxos.Receiver.{Datagram, Body, udp_read_next_message, prepare_acks}
use libpaxos.Proposer.{
  TimeVal, Status, Instance, Proposer, leader_is_me, status_number, has_status, slot, instance_of,
  sub32, add32,
}
use libpaxos.Proposer.Promises.{
  save_promised_value, pro_save_prepare_ack, complete_phase1, handle_prepare_ack,
  handle_prepare_acks,
}
use libpaxos.Proposer.Phase2.{leader_open_instances_p2_new}
use libpaxos.Proposer.Handlers.{handle_prepare_ack_batch, pro_handle_newmsg}
use libpaxos.Proposer.Accepts.Routines.{has_status_lem}
use libpaxos.Proposer.Accepts.Reign.{pro_save_prepare_ack-kept}
use libpaxos.Proposer.Sound.{Succeeds, succeeds, Succeeds-bind, Succeeds-map, Succeeds-if}
use libpaxos.Proposer.Sound.Count.{count-pos}
use libpaxos.Proposer.Sound.Array.{
  is_pending, Counts-write, Window-keep, SameIds, IsSound, IsSound-at, Sound-at, slot-lt,
}
use libpaxos.Proposer.Sound.Second.{leader_open_instances_p2_expired-Succeeds}
use libpaxos.Proposer.Sound.New.{leader_open_instances_p2_new-Succeeds}

pro_save_prepare_ack-p2_value :
    (ii : Instance) (pa : PrepareAck) (acceptor_id : ℕ)
    → (pro_save_prepare_ack ii pa acceptor_id).p2_value ≡ ii.p2_value
unfolding pro_save_prepare_ack save_promised_value
pro_save_prepare_ack-p2_value ii pa acceptor_id = ground arith

handle_prepare_ack-IsSound :
    (pa : PrepareAck) (acceptor_id : ℕ) (s : Proposer)
    → IsSound s
    → SameIds s (handle_prepare_ack pa acceptor_id s).1
      × IsSound (handle_prepare_ack pa acceptor_id s).1
unfolding handle_prepare_ack complete_phase1
handle_prepare_ack-IsSound pa acceptor_id s g =
    let ii = instance_of s pa.iid in
    let ii' = pro_save_prepare_ack ii pa acceptor_id in
    let (e, _, e') = pro_save_prepare_ack-kept ii pa acceptor_id in
    let v = pro_save_prepare_ack-p2_value ii pa acceptor_id in
    let same_p2 : is_some ii'.p2_value ≡ is_some ii.p2_value = rw v refl in
    elim (Bool-cases (not (has_status ii Status.p1_pending) || not (pa.ballot == ii.my_ballot))) [
      | inl dropped ↦ rw dropped ((refl, refl), g)
      | inr taken ↦
          let pending : has_status ii Status.p1_pending ≡ true = ground arith in
          let st = has_status_lem ii Status.p1_pending pending in
          let st' : status_number ii'.status ≡ 1 = rw e' st in
          elim (Bool-cases (ltb ii'.promises_count quorum)) [
            | inl few ↦
                rw (taken, few)
                  (
                    (refl, refl),
                    record {
                      window =
                          Window-keep pa.iid ii' (omega (arith, st)) e same_p2 (omega (arith, st'))
                            (λ _. omega (arith, st')) g.window;
                      counts =
                          Counts-write s.p1_info.pending_count s.p1_info.ready_count
                            s.p2_info.open_count pa.iid ii' (ground (arith, st, st'))
                            (ground (arith, st, st')) (ground (arith, st, st', same_p2))
                            (inr (ground (arith, st, st'))) g.counts;
                      queue = g.queue;
                      few_open = g.few_open;
                    },
                  )
            | inr enough ↦
                let n = proposer_array_size in
                let one =
                  count-pos is_pending s.proposer_state n (slot pa.iid) (slot-lt pa.iid) pending in
                let all = g.counts.all_pending in
                let most = g.counts.few in
                rw (taken, enough)
                  (
                    (refl, refl),
                    record {
                      window =
                          Window-keep pa.iid _ (omega (arith, st)) e same_p2 (omega arith)
                            (λ _. omega arith) g.window;
                      counts =
                          Counts-write (sub32 s.p1_info.pending_count 1)
                            (add32 s.p1_info.ready_count 1) s.p2_info.open_count pa.iid _
                            (ground (arith, st, one, all, most)) (ground (arith, st, most))
                            (ground (arith, st, same_p2)) (inr (ground (arith, st, one, all, most)))
                            g.counts;
                      queue = g.queue;
                      few_open = g.few_open;
                    },
                  )
          ]
    ]

handle_prepare_acks-IsSound :
    (acceptor_id : ℕ) (pas : List PrepareAck) (s : Proposer)
    → IsSound s
    → SameIds s (handle_prepare_acks acceptor_id pas s).1
      × IsSound (handle_prepare_acks acceptor_id pas s).1
unfolding handle_prepare_acks
handle_prepare_acks-IsSound acceptor_id [] s g = ((refl, refl), g)
handle_prepare_acks-IsSound acceptor_id (pa ∷ pas) s g =
    let ((a, b), g') = handle_prepare_ack-IsSound pa acceptor_id s g in
    let ((a', b'), g'') =
      handle_prepare_acks-IsSound acceptor_id pas (handle_prepare_ack pa acceptor_id s).1 g' in
    ((a' ∙ a, b' ∙ b), g'')

module _ (clock : ℕ → TimeVal) where
  -- What an event leaves of a leader.
  abbrev pub Leads : Proposer → Proposer → Type 0
  Leads s s' = SameIds s s' × IsSound s'

  -- New instances are opened, in a proposer with its own bounds.
  new-Succeeds :
      (s : Proposer) → IsSound s → Succeeds (Leads s) (leader_open_instances_p2_new clock s)
  new-Succeeds s g =
      Succeeds-map
        (leader_open_instances_p2_new-Succeeds clock s.current_iid s.p1_info.highest_open s g)
        (λ s' (a, b, ids, h). (
          ids,
          Sound-at s'.current_iid s'.p1_info.highest_open s'.p2_info.next_unused_iid
              s'.p1_info.pending_count s'.p1_info.ready_count s'.p2_info.open_count a b refl refl
              refl refl h,
        ))

  handle_prepare_ack_batch-Succeeds :
      (acceptor_id : ℕ) (pas : List PrepareAck) (s : Proposer)
      → IsSound s
      → Succeeds (Leads s) (handle_prepare_ack_batch clock acceptor_id pas s)
  unfolding handle_prepare_ack_batch
  handle_prepare_ack_batch-Succeeds acceptor_id pas s g =
      let (ready, s') = handle_prepare_acks acceptor_id pas s in
      let ((a, b), g') = handle_prepare_acks-IsSound acceptor_id pas s g in
      Succeeds-if (not (leader_is_me s)) (λ _. succeeds ((refl, refl), g))
        (λ _.
          Succeeds-if (ltb 0 ready)
            (λ _.
              let cur = s'.current_iid in
              let top = s'.p1_info.highest_open in
              let next = s'.p2_info.next_unused_iid in
              let id = s'.this_proposer_id in
              let leader = s'.current_leader_id in
              Succeeds-bind
                (leader_open_instances_p2_expired-Succeeds clock cur top next id leader s'
                  (refl, refl, refl, refl, refl) g')
                (λ s'' ((e, e', e'', d, d'), h).
                  Succeeds-map
                    (new-Succeeds s'' (IsSound-at cur top next id leader s'' (e, e', e'', d, d') h))
                    (λ s3 ((d2, d3), h'). ((d2 ∙ d ∙ a, d3 ∙ d' ∙ b), h'))))
            (λ _. succeeds ((a, b), g')))

  pub pro_handle_newmsg-Succeeds :
      (received : Option (Datagram × ℕ)) (s : Proposer)
      → IsSound s
      → Succeeds (Leads s) (pro_handle_newmsg clock received s)
  unfolding pro_handle_newmsg
  pro_handle_newmsg-Succeeds received s g = by_message (udp_read_next_message received)
    where
      by_message :
          (m : Option Body)
          → Succeeds (Leads s) (elim m [
            | some (prepare_acks acceptor_id pas) ↦ handle_prepare_ack_batch clock acceptor_id pas s
            | _ ↦ some s
          ])
      by_message (some (prepare_acks acceptor_id pas)) =
          handle_prepare_ack_batch-Succeeds acceptor_id pas s g
      by_message _ = succeeds ((refl, refl), g)
