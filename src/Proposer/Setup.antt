-- ===== src/Proposer/Setup.antt =====
-- lib/proposer.c: the start of a proposer, with what the calls for its sockets return. It runs on the
-- thread of its learner, which calls `init_proposer` behind its own start.
use libpaxos.Base.{ℕ, Bool, true, false, not, ◌&&◌, ◌||◌, Option, some, leb, if◌then◌else◌, ◌>>=◌}
use libpaxos.Config.{max_n_of_proposers}
use libpaxos.SendBuf.{new_buffer}
use libpaxos.Learner.Startup.{Calls, custom_fails, init_learner_thread, result_of}
use libpaxos.Acceptor.Setup.{calls_custom_init}
use libpaxos.Proposer.{TimeVal, Proposer, leader_is_me}
use libpaxos.Proposer.Leader.{LeadCalls, leader_init}
use libpaxos.Proposer.Handlers.{pro_ping_failure_detector, init_pro_structs}

-- Whether the calls succeed: for the two sockets of the network and the event of the second, for
-- those of the oracle, for the timer of the pings, for a promotion, and the function of the client,
-- if it has one. What `event_add` returns for the two events is not looked at.
pub record StartCalls : Type 0 where
  pub acceptors_sender : Bool
  pub proposers_receiver : Bool
  pub proposers_event : Bool
  pub oracle_sender : Bool
  pub oracle_receiver : Bool
  pub oracle_event : Bool
  pub ping_timer : Bool
  pub lead_calls : LeadCalls
  pub client_custom_init : Option Bool

unfoldable pub init_pro_network : StartCalls → Proposer → Bool × Proposer
init_pro_network c s =
    if not c.acceptors_sender
    then (false, s)
    else (c.proposers_receiver, record s { to_acceptors = new_buffer })

-- The first ping is sent here.
unfoldable pub init_pro_fd_events : StartCalls → Proposer → Option (Bool × Proposer)
init_pro_fd_events c s =
    if not c.oracle_sender
    then some (false, s)
    else (let s' = record s { to_oracle = new_buffer } in
        if not c.oracle_receiver
        then some (false, s')
        else (pro_ping_failure_detector c.ping_timer s' >>= λ s''. some (true, s'')))

module _ (clock : ℕ → TimeVal) where
  -- The end of `init_proposer`: the promotion, if there is one, and the function of the client.
  unfoldable pub finish : StartCalls → Proposer → Option (Bool × Proposer)
  finish c s =
      (if leader_is_me s then leader_init clock c.lead_calls s else some (true, s)) >>= λ r.
      some (r.0 && not (custom_fails c.client_custom_init), r.1)

  unfoldable pub init_proposer_with : StartCalls → Proposer → Option (Bool × Proposer)
  init_proposer_with c s =
      let (network, s1) = init_pro_network c s in
      if not network then some (false, s1) else (do
        (timers, s2) ← init_pro_fd_events c s1
        if not timers then some (false, s2) else finish c (init_pro_structs s2))

  -- Whether 0 is returned, if the learner's thread is made and `learner_init` returns, and the state; the number is not negative.
  unfoldable pub proposer_init_with : ℕ → StartCalls → Calls → Proposer → Option (Bool × Proposer)
  proposer_init_with proposer_id c l s =
      if leb max_n_of_proposers proposer_id
      then some (false, s)
      else (let s0 = record s { this_proposer_id = proposer_id } in
          if calls_custom_init l
          then (do
            (success, s') ← init_proposer_with c s0
            some (
              result_of (init_learner_thread true (record l { custom_init = some success })),
              s',
            ))
          else some (result_of (init_learner_thread true l), s0))

  unfoldable pub proposer_init_cif :
      Bool → ℕ → StartCalls → Calls → Proposer → Option (Bool × Proposer)
  proposer_init_cif client_succeeds proposer_id c l s =
      proposer_init_with proposer_id (record c { client_custom_init = some client_succeeds }) l s

  -- The calls whose failure is an assertion succeed: those for the timers.
  abbrev pub timers_added : Bool → StartCalls → Bool
  timers_added leads c =
      c.ping_timer
      && (not leads || (c.lead_calls.print_timer && c.lead_calls.p1_timer && c.lead_calls.p2_timer))

  -- The calls whose failure is an error succeed; the socket for the clients is that of a leader.
  abbrev pub all_succeed : Bool → StartCalls → Calls → Bool
  all_succeed leads c l =
      c.acceptors_sender
      && c.proposers_receiver
      && c.oracle_sender
      && c.oracle_receiver
      && not (leads && not c.lead_calls.values_receiver)
      && not (custom_fails c.client_custom_init)
      && calls_custom_init l
      && l.ready_timer
