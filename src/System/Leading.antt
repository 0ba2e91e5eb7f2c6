-- ===== src/System/Leading.antt =====
-- A value on its way from a client to a new leader, and out in its accept request.
use libpaxos.Base.{
  ℕ, ◌+◌, ◌≤◌, ◌<◌, ◌≡◌, refl, ap, true, some, List, [], ◌∷◌, length, arith, ◌>>=◌, Option,
}
use libpaxos.Config.{u64_mod, preexec_win_size, n_of_acceptors}
use libpaxos.Messages.{paxos_msg_header}
use libpaxos.Receiver.{Body, Datagram, prepare_acks, submit}
use libpaxos.Values.{Value, Values, vh_init, vh_handle_newmsg, vh_enqueue_value}
use libpaxos.Proposer.{
  TimeVal, Instance, Proposer, leader_is_me, instance_of, set_instance, slot, first_ballot,
}
use libpaxos.Proposer.Reign.{IsClear}
use libpaxos.Proposer.Opening.{IsStarted, plus_zero}
use libpaxos.Proposer.Promotion
use libpaxos.Proposer.Promotion.{start_leading-started}
use libpaxos.Proposer.Leader.{start_leading}
use libpaxos.Proposer.Handlers.{handle_prepare_ack_batch, pro_handle_newmsg}
use libpaxos.Proposer.Progress.{pending_value_sent}
use libpaxos.Proposer.Progress.Steps.{counted, empty_promise, first_promise}
use mathlib.Core.Path.{subst}
use libpaxos.Proposer.Accepts.{HasSent}
use libpaxos.Proposer.Accepts.Safety.{Event, message, client_message, handle_event, reign}
use libpaxos.System.Agreement.{arrival_read}

-- What the leader gets: a value of a client, and the promises of two acceptors.
abbrev pub received_from : ℕ → Body → Option (Datagram × ℕ)
received_from size body = some (record { data_size = size; body = body }, size + paxos_msg_header)

abbrev pub promise_from : ℕ → ℕ → ℕ → Event
promise_from acceptor_id iid ballot =
    message (received_from 28 (prepare_acks acceptor_id (empty_promise iid ballot ∷ [])))

abbrev pub inputs : ℕ → ℕ → Value → List Event
inputs iid ballot v =
    client_message (received_from (length v) (submit v))
    ∷ promise_from 0 iid ballot
    ∷ promise_from 1 iid ballot
    ∷ []

counted_lem :
    (id iid : ℕ) (ii : Instance)
    → IsStarted id iid ii
    → ii ≡ counted iid (first_ballot id) ii.timeout 0
counted_lem id iid ii h =
    let a = h.number in
    let b = h.pending in
    let c = h.ballot in
    let d = h.no_bits in
    let e = h.no_promises in
    let f = h.no_p1_ballot in
    let g = h.no_p1_value in
    let k = h.no_p2_value in
    λ i. record {
      iid = a i;
      status = b i;
      my_ballot = c i;
      promises_bitvector = d i;
      promises_count = e i;
      p1_value = g i;
      p1_value_ballot = f i;
      p2_value = k i;
      timeout = ii.timeout;
    }

module _ (clock : ℕ → TimeVal) (iid ballot : ℕ) where
  -- The leader, with the value pending.
  abbrev pending : Value → Proposer → Proposer
  pending v s = record s { values = record s.values { vh_list = v ∷ []; vh_list_size = 1 } }

  value_read :
      (v : Value) (vh : Values)
      → length v + paxos_msg_header < u64_mod
      → vh_handle_newmsg (received_from (length v) (submit v)) vh ≡ vh_enqueue_value v vh
  unfolding vh_handle_newmsg
  value_read v vh small =
      ap (λ (m : Option Body). elim m [ some (submit value) ↦ vh_enqueue_value value vh | _ ↦ vh ])
        (arrival_read (length v) (submit v) small tt)

  promise_read :
      (acceptor_id : ℕ) (s : Proposer)
      → acceptor_id < n_of_acceptors
      → handle_event clock (promise_from acceptor_id iid ballot) s
        ≡ handle_prepare_ack_batch clock acceptor_id (empty_promise iid ballot ∷ []) s
  unfolding handle_event pro_handle_newmsg
  promise_read acceptor_id s b =
      ap
        (λ (m : Option Body). elim m [
          | some (prepare_acks acceptor_id pas) ↦ handle_prepare_ack_batch clock acceptor_id pas s
          | _ ↦ some s
        ])
        (arrival_read 28 (prepare_acks acceptor_id (empty_promise iid ballot ∷ [])) (omega arith) b)

  -- The value of the client comes to a leader with nothing in its list.
  value_comes :
      (v : Value) (s : Proposer)
      → length v + paxos_msg_header < u64_mod
      → leader_is_me s ≡ true
      → s.values.vh_list ≡ []
      → s.values.vh_list_size ≡ 0
      → reign clock (inputs iid ballot v) s
        ≡ reign clock (promise_from 0 iid ballot ∷ promise_from 1 iid ballot ∷ []) (pending v s)
  unfolding reign handle_event vh_enqueue_value
  value_comes v s small me none_left size =
      rw (me, value_read v s.values small, size, none_left) refl

  -- Both promises, as the handler takes them.
  promises_come :
      (t : TimeVal) (s s' : Proposer)
      → leader_is_me s ≡ true
      → instance_of s iid ≡ counted iid ballot t 0
      → (handle_prepare_ack_batch clock 0 (empty_promise iid ballot ∷ []) s
          >>= handle_prepare_ack_batch clock 1 (empty_promise iid ballot ∷ []))
        ≡ some s'
      → reign clock (promise_from 0 iid ballot ∷ promise_from 1 iid ballot ∷ []) s ≡ some s'
  unfolding reign
  promises_come t s s' me here e =
      let first = first_promise clock iid ballot 0 t s me here in
      let s2 = set_instance s iid (counted iid ballot t 1) in
      let second = rw first at e in
      rw (me, promise_read 0 s (omega arith), first, me, promise_read 1 s2 (omega arith), second)
        refl

module _ (clock : ℕ → TimeVal) where
  -- A new leader sends the value for its first instance, with its first ballot.
  pub leader_sends :
      (s : Proposer) (v : Value)
      → length v + paxos_msg_header < u64_mod
      → leader_is_me s ≡ true
      → 1 ≤ s.current_iid
      → s.current_iid + preexec_win_size < u64_mod
      → ((k : ℕ) → k < preexec_win_size → IsClear (instance_of s (s.current_iid + k)))
      → let ballot = first_ballot s.this_proposer_id in
        (s' : Proposer) × ((start_leading clock s >>= reign clock (inputs s.current_iid ballot v))
          ≡ some s')
        × HasSent s'.to_acceptors (record { iid = s.current_iid; ballot = ballot; value = v })
  unfolding vh_init
  leader_sends s v small me low bound free =
      let (sb, state, r, e, o) = start_leading-started clock s low bound free in
      let iid = s.current_iid in
      let ballot = first_ballot s.this_proposer_id in
      let s0 = Promotion.started clock s sb state r in
      let s1 = pending clock iid ballot v s0 in
      let at_start =
        subst (λ n. IsStarted s.this_proposer_id n (state (slot n))) (plus_zero iid)
          (o.opened 0 (omega arith)) in
      let behind = o.opened 1 (omega arith) in
      let t = (state (slot iid)).timeout in
      let here = counted_lem s.this_proposer_id iid (state (slot iid)) at_start in
      let (s', run, sent, _) =
        pending_value_sent clock ballot t v s1 0 1 me refl (omega (arith, bound)) (omega arith) refl
          refl here behind.no_p1_value behind.no_p2_value in
      (
        s',
        rw (e, value_comes clock iid ballot v s0 small me refl refl)
            (promises_come clock iid ballot t s1 s' me here run),
        sent,
      )
