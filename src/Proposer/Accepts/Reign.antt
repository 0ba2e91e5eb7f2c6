-- ===== src/Proposer/Accepts/Reign.antt =====
-- lib/proposer.c and lib/proposer_leader.c: the reign of a leader, from its promotion through any
-- events to its step down, and the accept requests that it sends.
use libpaxos.Base.{
  zero, suc, ◌+◌, ◌%◌, leb, ℕ, ◌≡◌, inl, inr, true, false, ◌==◌, arith, Bool-cases, Option-cases,
  Option, some, none, List, [], ◌∷◌, not, ◌&&◌, ◌||◌, ltb, if◌then◌else◌,
}
use libpaxos.Config.{quorum, u32_mod}
use libpaxos.Messages.{PrepareAck}
use libpaxos.Receiver.{Datagram, Body, udp_read_next_message, prepare_acks}
use libpaxos.Values.{Value, vh_push_back_value, vh_shutdown}
use libpaxos.Proposer.{
  TimeVal, Status, Instance, Proposer, leader_is_me, has_status, slot, instance_of, set_instance,
  pro_clear_instance_info, upto,
}
use libpaxos.Proposer.Promises.{
  save_promised_value, pro_save_prepare_ack, complete_phase1, handle_prepare_ack,
  handle_prepare_acks,
}
use libpaxos.Proposer.Phase2.{leader_open_instances_p2_expired}
use libpaxos.Proposer.Leader.{
  LeadCalls, count_delivery, abandon, shutdown_loop, leader_shutdown, leader_deliver,
}
use libpaxos.Proposer.Handlers.{
  pro_deliver_callback, handle_prepare_ack_batch, pro_handle_newmsg, change_leader,
}
use libpaxos.Proposer.Accepts.{Post, Post-some, Post-bind, Post-if}
use libpaxos.Proposer.Accepts.Slots.{Slots-keep, Slots-empty}
use libpaxos.Proposer.Accepts.Routines.{Reigns, has_status_lem, Keeps-Slots}
use libpaxos.Proposer.Accepts.Requests.{
  leader_open_instances_p2_expired-Post, leader_open_instances_p2_new-Post,
}

-- What a promise leaves of an instance.
pub pro_save_prepare_ack-kept :
    (ii : Instance) (pa : PrepareAck) (acceptor_id : ℕ)
    → let r = pro_save_prepare_ack ii pa acceptor_id in
      (r.iid ≡ ii.iid) × (r.my_ballot ≡ ii.my_ballot) × (r.status ≡ ii.status)
unfolding pro_save_prepare_ack save_promised_value
pro_save_prepare_ack-kept ii pa acceptor_id = ground arith

module _ (limit : ℕ) where
  handle_prepare_ack-Reigns :
      (pa : PrepareAck) (acceptor_id : ℕ) (s : Proposer)
      → Reigns limit s
      → Reigns limit (handle_prepare_ack pa acceptor_id s).1
  unfolding handle_prepare_ack complete_phase1
  handle_prepare_ack-Reigns pa acceptor_id s (low, k) =
      let ii = instance_of s pa.iid in
      let ii' = pro_save_prepare_ack ii pa acceptor_id in
      let (e, e', e'') = pro_save_prepare_ack-kept ii pa acceptor_id in
      elim (Bool-cases (not (has_status ii Status.p1_pending) || not (pa.ballot == ii.my_ballot))) [
        | inl dropped ↦ rw dropped (low, k)
        | inr taken ↦
            let pending : has_status ii Status.p1_pending ≡ true = ground arith in
            let st = has_status_lem ii Status.p1_pending pending in
            elim (Bool-cases (ltb ii'.promises_count quorum)) [
              | inl few ↦
                  rw (taken, few)
                    (
                      low,
                      Keeps-Slots _ s.to_acceptors
                          (Slots-keep (slot pa.iid) ii' e e' (λ _. omega (arith, st))
                            (λ h. rw e'' h))
                          k,
                    )
              | inr enough ↦
                  rw (taken, enough)
                    (
                      low,
                      Keeps-Slots _ s.to_acceptors
                          (Slots-keep (slot pa.iid) _ e e' (λ _. omega (arith, st))
                            (λ h. absurd (omega (arith, st, h))))
                          k,
                    )
            ]
      ]

  handle_prepare_acks-Reigns :
      (acceptor_id : ℕ) (pas : List PrepareAck) (s : Proposer)
      → Reigns limit s
      → Reigns limit (handle_prepare_acks acceptor_id pas s).1
  unfolding handle_prepare_acks
  handle_prepare_acks-Reigns acceptor_id [] s r = r
  handle_prepare_acks-Reigns acceptor_id (pa ∷ pas) s r =
      handle_prepare_acks-Reigns acceptor_id pas (handle_prepare_ack pa acceptor_id s).1
        (handle_prepare_ack-Reigns pa acceptor_id s r)

  -- The record of an instance is cleared.
  cleared-Reigns :
      (iid : ℕ) (s : Proposer)
      → Reigns limit s
      → Reigns limit (set_instance s iid (pro_clear_instance_info (instance_of s iid)))
  unfolding pro_clear_instance_info
  cleared-Reigns iid s (low, k) =
      (low, Keeps-Slots _ s.to_acceptors (Slots-empty (slot iid) _ (λ h. omega (arith, h))) k)

  abandon-Post : (iid : ℕ) (s : Proposer) → Reigns limit s → Post (Reigns limit) (abandon iid s)
  unfolding abandon
  abandon-Post iid s r =
      let ii = instance_of s iid in
      let s' = set_instance s iid (pro_clear_instance_info ii) in
      let done = cleared-Reigns iid s r in
      elim (Option-cases ii.p2_value) [
        | inl e ↦ rw (e, abandon) (Post-some s' done)
        | inr (v, e) ↦
            rw (e, abandon)
              (Post-if (has_status ii Status.p2_completed) (some s') _ (λ _. Post-some s' done)
                (λ _. Post-some (record s' { values = vh_push_back_value v s.values }) done))
      ]

  shutdown_loop-Post :
      (last fuel i : ℕ) (s : Proposer)
      → Reigns limit s
      → Post (Reigns limit) (shutdown_loop fuel last i s)
  unfolding shutdown_loop
  shutdown_loop-Post last zero i s r = record { at = tt }
  shutdown_loop-Post last (suc fuel) i s r =
      Post-if (leb i last) _ (some s)
        (λ _.
          Post-bind (abandon i s) _ (abandon-Post i s r)
            (λ s' r'. shutdown_loop-Post last fuel ((i + 1) % u32_mod) s' r'))
        (λ _. Post-some s r)

  leader_shutdown-Post : (s : Proposer) → Reigns limit s → Post (Reigns limit) (leader_shutdown s)
  unfolding leader_shutdown
  leader_shutdown-Post s r =
      let i = s.current_iid % u32_mod in
      let last = s.p1_info.highest_open in
      let fuel = suc (upto i last) in
      Post-bind (shutdown_loop fuel last i s) _ (shutdown_loop-Post last fuel i s r) (λ s' r'.
        Post-bind {P = λ _. Unit} (vh_shutdown s'.values) _ (anything (vh_shutdown s'.values))
          (λ vh _. Post-some (record s' { values = vh }) r'))
    where
      anything : {A : Type 0} (o : Option A) → Post (λ _. Unit) o
      anything none = record { at = tt }
      anything (some a) = record { at = tt }

  module _ (clock : ℕ → TimeVal) where
    leader_deliver-Post :
        (value : Value) (iid : ℕ) (s : Proposer)
        → Reigns limit s
        → Post (Reigns limit) (leader_deliver clock value iid s)
    unfolding leader_deliver count_delivery
    leader_deliver-Post value iid s r =
        Post-if (not ((instance_of s iid).iid == iid)) (some s) _ (λ _. Post-some s r)
          (λ _. leader_open_instances_p2_new-Post clock limit _ (cleared-Reigns iid s r))

    pub pro_deliver_callback-Post :
        (value : Value) (iid : ℕ) (s : Proposer)
        → Reigns limit s
        → Post (Reigns limit) (pro_deliver_callback clock value iid s)
    unfolding pro_deliver_callback
    pro_deliver_callback-Post value iid s r =
        Post-bind (if leader_is_me s then leader_deliver clock value iid s else some s) _
          (Post-if (leader_is_me s) _ (some s) (λ _. leader_deliver-Post value iid s r)
            (λ _. Post-some s r))
          (λ s' r'. Post-some _ r')

    handle_prepare_ack_batch-Post :
        (acceptor_id : ℕ) (pas : List PrepareAck) (s : Proposer)
        → Reigns limit s
        → Post (Reigns limit) (handle_prepare_ack_batch clock acceptor_id pas s)
    unfolding handle_prepare_ack_batch
    handle_prepare_ack_batch-Post acceptor_id pas s r =
        let (ready, s') = handle_prepare_acks acceptor_id pas s in
        let r' = handle_prepare_acks-Reigns acceptor_id pas s r in
        Post-if (not (leader_is_me s)) (some s) _ (λ _. Post-some s r)
          (λ _.
            Post-if (ltb 0 ready) _ (some s')
              (λ _.
                Post-bind (leader_open_instances_p2_expired clock s') _
                  (leader_open_instances_p2_expired-Post clock limit s' r')
                  (leader_open_instances_p2_new-Post clock limit))
              (λ _. Post-some s' r'))

    pub pro_handle_newmsg-Post :
        (received : Option (Datagram × ℕ)) (s : Proposer)
        → Reigns limit s
        → Post (Reigns limit) (pro_handle_newmsg clock received s)
    unfolding pro_handle_newmsg
    pro_handle_newmsg-Post received s r = by_message (udp_read_next_message received)
      where
        by_message :
            (m : Option Body)
            → Post (Reigns limit) (elim m [
              | some (prepare_acks acceptor_id pas) ↦
                  handle_prepare_ack_batch clock acceptor_id pas s
              | _ ↦ some s
            ])
        by_message (some (prepare_acks acceptor_id pas)) =
            handle_prepare_ack_batch-Post acceptor_id pas s r
        by_message _ = Post-some s r

    -- A leader is not promoted again.
    pub change_leader-Post :
        (c : LeadCalls) (current_leader : ℕ) (s : Proposer)
        → leader_is_me s ≡ true
        → Reigns limit s
        → Post (Reigns limit) (change_leader clock c current_leader s)
    unfolding change_leader
    change_leader-Post c current_leader s me r =
        Post-if (leader_is_me s && not (current_leader == s.this_proposer_id)) _ _
          (λ _. leader_shutdown-Post s r)
          (λ _.
            Post-if (not (leader_is_me s) && (current_leader == s.this_proposer_id)) _ (some s)
              (λ e. absurd (let no : false ≡ true = rw me at e in cc)) (λ _. Post-some s r))
