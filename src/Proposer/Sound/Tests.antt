-- ===== src/Proposer/Sound/Tests.antt =====
-- The life of a proposer that starts as the leader, gets a value and a promise, and then a second
-- one: instances of the theorems on its whole life.
use libpaxos.Base.{◌==◌}
use libpaxos.Base.{ℕ, ◌≤◌, ◌<◌, ◌≡◌, true, false, none, some, [], ◌∷◌, refl, arith, is_some}
use libpaxos.Config.{proposer_array_size}
use libpaxos.Receiver.{Body}
use libpaxos.SendBuf.{new_buffer}
use libpaxos.Proposer.{
  TimeVal, Status, Proposer, leader_is_me, status_number, slot, instance_of,
  pro_clear_instance_info,
}
use libpaxos.Proposer.Leader.{opened_by_me}
use libpaxos.Proposer.Promotion.{start_leading-started}
use libpaxos.Proposer.Handlers.{send_ping, init_pro_structs, init_proposer, proposer_init}
use libpaxos.Proposer.Accepts.Safety.{Event, message, client_message, handle_event}
use libpaxos.Learner.Startup.{Calls}
use libpaxos.Proposer.Setup.{StartCalls, all_succeed, proposer_init_with}
use libpaxos.Proposer.Starting.{proposer_init_with_lem}
use libpaxos.Proposer.Sound.Count.{count}
use libpaxos.Proposer.Sound.Array.{is_pending, is_ready, IsUsed}
use libpaxos.Proposer.Sound.Lives.{Lives, starts, event_succeeds, leader_window}

abbrev ticks : ℕ → TimeVal
ticks n = record { tv_sec = n; tv_usec = 0 }

-- The variables of the program before it runs.
abbrev unset : Proposer
unset = record {
  current_iid = 1;
  this_proposer_id = 9;
  current_leader_id = 0;
  alive_ping_seqno = 0;
  to_oracle = new_buffer;
  to_acceptors = new_buffer;
  proposer_state = λ _. record {
    iid = 0;
    status = Status.empty;
    my_ballot = 0;
    promises_bitvector = 0;
    promises_count = 0;
    p1_value = none;
    p1_value_ballot = 0;
    p2_value = none;
    timeout = ticks 0;
  };
  p1_info = record { pending_count = 0; ready_count = 0; highest_open = 0 };
  p2_info = record { next_unused_iid = 0; open_count = 0 };
  lead_counters = record { p1_timeout = 0; p2_timeout = 0; p2_waits_p1 = 0 };
  values = record { vh_list = []; vh_list_size = 0; dropped_count = 0; notified = [] };
  readings = 0;
}

-- Proposer 0 starts as the leader.
first_leader :
    (s : Proposer) × Lives ticks s × (leader_is_me s ≡ true) × (s.p1_info.pending_count ≡ 300)
unfolding proposer_init init_proposer init_pro_structs pro_clear_instance_info send_ping
first_leader =
    let s0 = init_pro_structs (
      send_ping (record unset {
        this_proposer_id = 0;
        to_acceptors = new_buffer;
        to_oracle = new_buffer;
      })) in
    let (sb, state, r, e, o) = start_leading-started ticks s0 (omega arith) (omega arith) (λ k h.
      record {
        no_number = refl;
        is_empty = refl;
        no_bits = refl;
        no_promises = refl;
        no_p1_ballot = refl;
        no_p1_value = refl;
        no_p2_value = refl;
      }) in
    (_, starts 0 unset _ (omega arith) refl e, refl, refl)

-- A promise without a value, for instance 1 and the first ballot.
abbrev promise_of : ℕ → Event
promise_of acceptor_id = message (
    some (
      record {
        data_size = 28;
        body =
            Body.prepare_acks acceptor_id
              (record { iid = 1; ballot = 10; value_ballot = 0; value = [] } ∷ []);
      },
      44,
    ))

abbrev submission : Event
submission = client_message (some (record { data_size = 1; body = Body.submit (7 ∷ []) }, 17))

abbrev Next : Event → Proposer → Type 0
Next e s = (s' : Proposer) × (handle_event ticks e s ≡ some s') × Lives ticks s'

with_value : Next submission first_leader.0
with_value = event_succeeds ticks submission first_leader.0 first_leader.1 tt

with_promise : Next (promise_of 0) with_value.0
with_promise = event_succeeds ticks (promise_of 0) with_value.0 with_value.2 tt

event_succeeds_example :
    (s' : Proposer) × (handle_event ticks (promise_of 1) with_promise.0 ≡ some s') × Lives ticks s'
event_succeeds_example = event_succeeds ticks (promise_of 1) with_promise.0 with_promise.2 tt

leader_window_example :
    let s = first_leader.0 in
    (s.p1_info.pending_count ≡ count is_pending proposer_array_size s.proposer_state)
    × (count is_ready proposer_array_size s.proposer_state ≤ s.p1_info.ready_count)
    × (s.p2_info.open_count ≡ count opened_by_me proposer_array_size s.proposer_state)
    × (s.p2_info.open_count ≤ 4)
    × ((i : ℕ)
        → s.current_iid ≤ i
        → i ≤ s.p1_info.highest_open
        → ((instance_of s i).iid ≡ i)
          × IsUsed (instance_of s i)
          × (i < s.p2_info.next_unused_iid → is_some (instance_of s i).p2_value ≡ true)
          × (s.p2_info.next_unused_iid ≤ i
              → (is_some (instance_of s i).p2_value ≡ false)
                × (status_number (instance_of s i).status ≤ 2)))
    × ((j : ℕ)
        → IsUsed (s.proposer_state j)
        → (slot (s.proposer_state j).iid ≡ j)
          × (s.current_iid ≤ (s.proposer_state j).iid)
          × ((s.proposer_state j).iid ≤ s.p1_info.highest_open))
leader_window_example = leader_window ticks first_leader.0 first_leader.1 first_leader.2

-- Proposer 2, whose learner starts; the socket for the clients would fail.
abbrev no_client_socket : StartCalls
no_client_socket = record {
  acceptors_sender = true;
  proposers_receiver = true;
  proposers_event = true;
  oracle_sender = true;
  oracle_receiver = true;
  oracle_event = false;
  ping_timer = true;
  lead_calls = record {
    values_receiver = false;
    print_timer = true;
    p1_timer = true;
    p2_timer = true;
  };
  client_custom_init = none;
}

abbrev learner_calls : Calls
learner_calls = record {
  event_init = true;
  sender = true;
  receiver = true;
  learner_event = true;
  hole_timer = true;
  custom_init = none;
  ready_timer = true;
}

proposer_init_with_lem_example :
    let ok = all_succeed ticks (2 == 0) no_client_socket learner_calls in
    (s' : Proposer) × (proposer_init_with ticks 2 no_client_socket learner_calls unset
      ≡ some (ok, s'))
    × (ok ≡ true → Lives ticks s')
proposer_init_with_lem_example =
    proposer_init_with_lem ticks 2 no_client_socket learner_calls unset (omega arith) refl refl
