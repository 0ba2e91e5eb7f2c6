-- ===== src/Learner/Tests.antt =====
-- Runs of a learner, and instances of the theorems about it.
use libpaxos.Base.{Bool, ◌-◌, ◌%◌, ◌≤◌, true, false, some, [], ◌∷◌, ◌++◌, ◌≡◌, ◌⊎◌, ◌↔◌, All, arith}
use libpaxos.Base.{ℕ, ◌<◌, Option, none, false, refl}
use libpaxos.Config.{n_of_acceptors}
use libpaxos.Receiver.{
  Datagram, udp_read_next_message, validate_paxos_msg, expected_size, accept_acks,
}
use libpaxos.Learner.Dispatch.{Arrivals, Arrived, run_arrivals, newmsg_delivers}
use libpaxos.Config.{quorum, max_n_of_proposers}
use libpaxos.Messages.{AcceptAck}
use libpaxos.SendBuf.{SendBuf}
use libpaxos.SendBuf.Batches.{packed, IsFit}
use libpaxos.Learner.{
  is_closed, instance_of, learner_is_closed, Learner, init_learner, lea_check_quorum,
  lea_hole_check,
}
use libpaxos.Base.{◌+◌, ◌≢◌, false}
use libpaxos.Messages.{Item}
use libpaxos.Learner.Quorum.{lea_check_quorum_iff, last_votes, last_final}
use libpaxos.Learner.Invariant.{Consecutive, IsJustified}
use libpaxos.Learner.History.{Batches, Received, run_batches, learner_delivers}
use libpaxos.Learner.Holes.{missing, lea_hole_check_lem, open_requests, asked_to}
use libpaxos.Learner.Startup.{
  Calls, Startup, Step, Reach, ready, error, waiting, woken, returned, created, result_of, signal,
  check, init_learner_thread, init_lea_network, init_lea_timers, init_lea_signal_ready,
}
use libpaxos.Learner.Threads.{AllSucceed, learner_init_lem, startup_race}
use libpaxos.Receiver.Sockets.{SocketCall, Sockets}
use libpaxos.Learner.Mixed.{learner_mixes_values, repeated_ack}

abbrev first_ack : AcceptAck
first_ack = record { iid = 1; ballot = 10; value_ballot = 10; is_final = false; value = 7 ∷ [] }

-- Acceptors 0 and 2 have accepted the value of instance 1.
abbrev two_batches : Batches
two_batches = (0, first_ack ∷ []) ∷ (2, first_ack ∷ []) ∷ []

learner_delivers_example :
    (s : Learner) × (run_batches two_batches init_learner ≡ some s)
    × Consecutive 1 s.delivered s.current_iid
    × All (IsJustified (Received two_batches)) s.delivered
learner_delivers_example = learner_delivers two_batches (omega arith)

lea_check_quorum_iff_example : ((lea_check_quorum (init_learner.learner_state 1) 0).0 ≡ true) ↔ (
    (quorum ≤ last_votes (init_learner.learner_state 1))
    ⊎ (last_final (init_learner.learner_state 1) ≡ true))
lea_check_quorum_iff_example = lea_check_quorum_iff (init_learner.learner_state 1) 0

-- A learner that has seen instance 3 closed.
abbrev lagging : Learner
lagging = record init_learner { highest_iid_closed = 3; highest_iid_seen = 3 }

lea_hole_check_lem_example :
    (sb : SendBuf) × (lea_hole_check lagging ≡ some (record lagging { to_acceptors = sb }))
    × (packed sb.sent
        ≡ packed lagging.to_acceptors.sent ++ open_requests lagging (asked_to lagging - 1) 1)
    × All IsFit sb.sent
    × (((k : ℕ)
          → is_closed (instance_of lagging (1 + k)) ≡ true
          → (instance_of lagging (1 + k)).iid ≡ 1 + k)
        → open_requests lagging (asked_to lagging - 1) 1 ≡ missing lagging (asked_to lagging - 1) 1)
    × ((i : ℕ)
        → is_closed (instance_of lagging i) ≡ true
        → (instance_of lagging i).iid ≢ i
        → (learner_is_closed lagging i ≡ false)
          × All (λ x. x ≢ Item.repeat_req i) (open_requests lagging (asked_to lagging - 1) 1))
lea_hole_check_lem_example = lea_hole_check_lem lagging tt

learner_mixes_values_example :
    (s : Learner) × (run_batches
        ((0, repeated_ack 31 10 (7 ∷ []) ∷ []) ∷ (1, repeated_ack 31 21 (8 ∷ []) ∷ []) ∷ [])
        init_learner
      ≡ some s)
    × (s.delivered
        ≡ record { value = 8 ∷ []; iid = 1; ballot = 31; proposer = 31 % max_n_of_proposers } ∷ [])
learner_mixes_values_example = learner_mixes_values 31 10 21 (7 ∷ []) (8 ∷ [])

-- A valid message of each of the acceptors 0 and 2, and one that is too short for its size.
abbrev message_of : ℕ → ℕ → Option (Datagram × ℕ)
message_of acceptor_id size =
    some (record { data_size = 37; body = accept_acks acceptor_id (first_ack ∷ []) }, size)

abbrev three_arrivals : Arrivals
three_arrivals = message_of 0 53 ∷ message_of 1 20 ∷ message_of 2 53 ∷ []

newmsg_delivers_example :
    (s : Learner) × (run_arrivals three_arrivals init_learner ≡ some s)
    × Consecutive 1 s.delivered s.current_iid
    × All (IsJustified (λ a m. (a < n_of_acceptors) × Arrived three_arrivals a m)) s.delivered
unfolding udp_read_next_message validate_paxos_msg expected_size
newmsg_delivers_example =
    newmsg_delivers three_arrivals ((omega arith, tt), (tt, ((omega arith, tt), tt)))

-- Every call of the start succeeds, and there is no function of the client's.
abbrev good_calls : Calls
good_calls = record {
  event_init = true;
  sender = true;
  receiver = true;
  learner_event = true;
  hole_timer = true;
  custom_init = none;
  ready_timer = true;
}

-- The caller waits, the thread signals that it is ready, and the caller returns.
abbrev awake : Startup
awake = record { caller = woken; learner_ready = ready; signalled = true }

started :
    Reach
      (init_learner_thread true good_calls)
      created
      record { caller = returned ready; learner_ready = ready; signalled = true }
unfolding init_learner_thread init_lea_network init_lea_timers init_lea_signal_ready
started =
    Reach.next
      (Reach.next (Reach.next Reach.here (Step.wait created refl))
        (signal (record created { caller = waiting }) refl))
      (check awake refl)

learner_init_lem_example : (result_of ready ≡ true) ↔ (true ≡ true) × AllSucceed true good_calls
learner_init_lem_example = learner_init_lem true true good_calls _ ready started refl

startup_race_example :
    ((s : Startup) × Reach error created s
      × (s.learner_ready ≡ error)
      × (s.caller ≡ waiting)
      × ((u : Startup) → ¬ Step error s u))
    × ((s : Startup)
        → s.caller ≡ waiting
        → s.signalled ≡ false
        → (u : Startup) × Reach error s u × (u.caller ≡ returned error))
startup_race_example = startup_race error (λ e. cc)

abbrev always : ℕ → SocketCall → Bool
always n c = true

abbrev two_sockets : Sockets
two_sockets = record { calls = 4; next_sock = 5; live = 4 ∷ 3 ∷ []; nonblocking = [] }
