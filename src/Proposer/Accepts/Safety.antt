-- ===== src/Proposer/Accepts/Safety.antt =====
-- lib/proposer.c: the events of a proposer through one reign, and what they say of the accept
-- requests that it sends.
use libpaxos.Base.{
  ℕ, ◌+◌, ◌*◌, ◌-◌, ◌%◌, ◌≤◌, ◌<◌, ◌≡◌, true, arith, inr, Option, some, List, [], ◌∷◌, length, Bool,
  false, assert, ◌>>◌, ◌>>=◌, if◌then◌else◌,
}
use libpaxos.Config.{u64_mod, preexec_win_size, max_n_of_proposers}
use libpaxos.Messages.{AcceptReq}
use libpaxos.Receiver.{Datagram, Body, udp_read_next_message, leader_announce}
use libpaxos.Values.{Value, vh_handle_newmsg}
use libpaxos.Learner.{Learner}
use libpaxos.Proposer.{TimeVal, Proposer, leader_is_me}
use libpaxos.Proposer.Ballots.{no_wrap}
use libpaxos.Proposer.Phase1.{p1_round, leader_periodic_p1_check}
use libpaxos.Proposer.Phase2.{p2_round, leader_periodic_p2_check}
use libpaxos.Proposer.Leader.{LeadCalls, start_leading}
use libpaxos.Proposer.Handlers.{
  send_ping, pro_ping_failure_detector, pro_deliver_callback, pro_handle_newmsg, change_leader,
  pro_handle_oracle_msg,
}
use libpaxos.Proposer.Accepts.{
  HasIssued, HasSent, OfResult, Post, Post-some, Post-bind, Post-map, Post-if,
}
use libpaxos.Proposer.Accepts.Slots.{IsHeld}
use libpaxos.Proposer.Accepts.Routines.{KeepsTo, Reigns, restarts, p1_round-Post}
use libpaxos.Proposer.Accepts.Requests.{p2_round-Post}
use libpaxos.Proposer.Accepts.Reign.{
  pro_deliver_callback-Post, pro_handle_newmsg-Post, change_leader-Post,
}
use mathlib.Core.Path.{subst}

-- What the event loop hands to a proposer: a message from its socket, from that of the oracle or from
-- that of the clients, a delivery of its learner, and its timers; and whether the calls for timers
-- and sockets succeed.
pub data Event : Type 0 where
  message client_message : Option (Datagram × ℕ) → Event
  oracle_message : LeadCalls → Option (Datagram × ℕ) → Event
  delivery : Value → ℕ → Event
  p1_check ping : Bool → Event
  p2_check : Bool → Learner → Event

-- A proposer that has not been the leader yet, and has sent no accept request.
pub record IsFresh (s : Proposer) : Type 0 where
  pub is_proposer : s.this_proposer_id < max_n_of_proposers
  pub starts : 1 ≤ s.current_iid
  pub free : (i : ℕ) → ¬ IsHeld (s.proposer_state i)
  pub unused : (ar : AcceptReq) → ¬ HasIssued s.to_acceptors ar

module _ (clock : ℕ → TimeVal) where
  unfoldable pub handle_event : Event → Proposer → Option Proposer
  handle_event (message received) s = pro_handle_newmsg clock received s
  handle_event (oracle_message c received) s = pro_handle_oracle_msg clock c received s
  handle_event (client_message received) s =
      some (record s { values = vh_handle_newmsg received s.values })
  handle_event (delivery value iid) s = pro_deliver_callback clock value iid s
  handle_event (p1_check added) s = leader_periodic_p1_check clock added s
  handle_event (p2_check added learner) s = leader_periodic_p2_check clock added learner s
  handle_event (ping added) s = pro_ping_failure_detector added s

  -- The events up to the one that ends the reign.
  unfoldable pub reign : List Event → Proposer → Option Proposer
  reign [] s = some s
  reign (e ∷ es) s = if leader_is_me s then handle_event e s >>= reign es else some s

  pro_handle_oracle_msg-Post :
      (limit : ℕ) (c : LeadCalls) (received : Option (Datagram × ℕ)) (s : Proposer)
      → leader_is_me s ≡ true
      → Reigns limit s
      → Post (Reigns limit) (pro_handle_oracle_msg clock c received s)
  unfolding pro_handle_oracle_msg
  pro_handle_oracle_msg-Post limit c received s me r = by_message (udp_read_next_message received)
    where
      by_message :
          (m : Option Body)
          → Post (Reigns limit) (elim m [
            | some (leader_announce current_leader) ↦
                change_leader clock c current_leader s >>= λ s'.
                some (record s' { current_leader_id = current_leader })
            | _ ↦ some s
          ])
      by_message (some (leader_announce current_leader)) =
          Post-bind (change_leader clock c current_leader s) _
            (change_leader-Post limit clock c current_leader s me r) (λ s' r'. Post-some _ r')
      by_message _ = Post-some s r

  -- The timer of phase 1 opens instances; all other events leave their number.
  handle_event-Post :
      (limit : ℕ) (e : Event) (s : Proposer)
      → limit + preexec_win_size < u64_mod
      → leader_is_me s ≡ true
      → Reigns limit s
      → Post (Reigns (limit + preexec_win_size)) (handle_event e s)
  unfolding handle_event send_ping pro_ping_failure_detector leader_periodic_p1_check
      leader_periodic_p2_check
  handle_event-Post limit e s b me r = by_event e
    where
      Post-assert :
          {P : Proposer → Type 0}
          → (added : Bool) (s' : Proposer) → P s'
          → Post P (assert added >> some s')
      Post-assert true s' p = Post-some s' p
      Post-assert false s' p = record { at = tt }

      wider : (s' : Proposer) → Reigns limit s' → Reigns (limit + preexec_win_size) s'
      wider s' (low, k) = (omega (arith, low), k)

      by_event : (e : Event) → Post (Reigns (limit + preexec_win_size)) (handle_event e s)
      by_event (message received) =
          Post-map _ wider (pro_handle_newmsg-Post limit clock received s r)
      by_event (oracle_message c received) =
          Post-map _ wider (pro_handle_oracle_msg-Post limit c received s me r)
      by_event (client_message received) = Post-some _ (wider s r)
      by_event (delivery value iid) =
          Post-map _ wider (pro_deliver_callback-Post limit clock value iid s r)
      by_event (p1_check added) =
          Post-bind (p1_round clock s) _ (p1_round-Post clock limit s b r)
            (λ s' r'. Post-assert added s' r')
      by_event (p2_check added learner) =
          Post-bind (p2_round clock learner s) _ (p2_round-Post clock limit learner s r)
            (λ s' r'. Post-assert added s' (wider s' r'))
      by_event (ping added) = Post-assert added _ (wider s r)

  reign-Post :
      (es : List Event) (limit : ℕ) (s : Proposer)
      → limit + preexec_win_size * length es < u64_mod
      → Reigns limit s
      → Post (λ s'. KeepsTo s'.p1_info.highest_open s') (reign es s)
  unfolding reign
  reign-Post [] limit s b r = Post-some s r.1
  reign-Post (e ∷ es) limit s b r =
      Post-if (leader_is_me s) _ (some s)
        (λ me.
          Post-bind (handle_event e s) (reign es)
            (handle_event-Post limit e s (omega (arith, b)) me r)
            (λ s' r'. reign-Post es (limit + preexec_win_size) s' (omega (arith, b)) r'))
        (λ _. Post-some s r.1)

  start_leading-Post :
      (s : Proposer)
      → IsFresh s
      → s.current_iid + preexec_win_size < u64_mod
      → Post (Reigns (s.current_iid + preexec_win_size)) (start_leading clock s)
  unfolding start_leading
  start_leading-Post s f b =
      let h = (s.current_iid + u64_mod - 1) % u64_mod in
      let from = f.starts in
      let start : h ≤ s.current_iid = omega (arith, b, from) in
      Post-bind (p1_round clock _) _
        (p1_round-Post clock s.current_iid _ b (
          start,
          record {
            is_proposer = f.is_proposer;
            slots = λ _. record {
              placed = λ i held. absurd (f.free i held);
              opened = λ ar issued. absurd (f.unused ar issued);
              own = λ ar issued. absurd (f.unused ar issued);
              behind = λ ar issued. absurd (f.unused ar issued);
              one_value = λ ar ar' issued. absurd (f.unused ar issued);
            };
          },
        ))
        (λ s' r'. Post-some _ r')

  -- A proposer that becomes the leader for the first time, where the calls for its timers and
  -- its receiver succeed, through any events up to its step down: if its ballots have not wrapped around, nor the numbers of its instances, then no two of the
  -- accept requests that it has sent have the same instance and ballot and different values, and
  -- each ballot tells the proposer's number.
  pub one_value_per_ballot :
      (s s' : Proposer) (es : List Event)
      → IsFresh s
      → s.current_iid + preexec_win_size * (length es + 1) < u64_mod
      → (start_leading clock s >>= reign es) ≡ some s'
      → restarts s' ≤ no_wrap
      → ((ar ar' : AcceptReq)
          → HasSent s'.to_acceptors ar
          → HasSent s'.to_acceptors ar'
          → ar.iid ≡ ar'.iid
          → ar.ballot ≡ ar'.ballot
          → ar.value ≡ ar'.value)
        × ((ar : AcceptReq)
            → HasSent s'.to_acceptors ar
            → ar.ballot % max_n_of_proposers ≡ s'.this_proposer_id)
  one_value_per_ballot s s' es f b e few =
      let all =
        Post-bind (start_leading clock s) (reign es) (start_leading-Post s f (omega (arith, b)))
          (λ m r. reign-Post es (s.current_iid + preexec_win_size) m (omega (arith, b)) r) in
      let k : KeepsTo s'.p1_info.highest_open s' =
        subst (λ o. OfResult (λ s'. KeepsTo s'.p1_info.highest_open s') o) e all.at in
      let g = k.slots few in
      let id = k.is_proposer in
      (
        λ ar ar' h h'. g.one_value ar ar' (inr h) (inr h'),
        λ ar h. let (n, _, own) = g.own ar (inr h) in omega (arith, own, id),
      )
