-- ===== src/Proposer/Tests.antt =====
-- Instances of the theorems about the proposer.
use libpaxos.Base.{ℕ, suc, ◌+◌, ◌%◌, ◌<◌, ◌≡◌, ◌≢◌, ◌↔◌, true, none, some, refl, arith}
use libpaxos.Base.{[], ◌∷◌}
use libpaxos.Proposer.Progress.Steps.{counted}
use libpaxos.Proposer.Phase1.{leader_check_p1_pending}
use libpaxos.SendBuf.Batches.{IsFit, packed}
use libpaxos.Base.{◌++◌, All}
use libpaxos.Proposer.Retry.{due_requests, IsChecked, leader_check_p1_pending_lem}
use libpaxos.Messages.{MsgCode, PrepareAck}
use libpaxos.SendBuf.{new_buffer, sendbuf_clear}
use libpaxos.Proposer.{instance_of}
use libpaxos.Proposer.{TimeVal, Status, Instance, Proposer}
use libpaxos.Proposer.Timing.{a_second, leader_set_expiration, leader_is_expired}
use libpaxos.Proposer.Promises.{handle_prepare_acks}
use libpaxos.Proposer.Phase2.{leader_execute_p2}
use libpaxos.Proposer.Deadlines.{microseconds, leader_set_expiration_lem, leader_is_expired_iff}
use libpaxos.Proposer.Ballots.{ballots_differ}
use libpaxos.Proposer.Choice.{IsHighest, save_all, save_all-IsHighest, one_acceptor_is_a_quorum}
use libpaxos.Proposer.Assign.{IsSent, leader_execute_p2_lem}
use libpaxos.Proposer.Phase2.{leader_open_instances_p2_new}

abbrev noon : TimeVal
noon = record { tv_sec = 43200; tv_usec = 970000 }

abbrev ticks : ℕ → TimeVal
ticks n = record { tv_sec = n; tv_usec = 0 }

-- Phase 1 of instance 5 is pending, and a value is assigned to it.
abbrev pending_five : Instance
pending_five = record {
  iid = 5;
  status = Status.p1_pending;
  my_ballot = 21;
  promises_bitvector = 0;
  promises_count = 0;
  p1_value = none;
  p1_value_ballot = 0;
  p2_value = some (7 ∷ []);
  timeout = noon;
}

abbrev leader_one : Proposer
leader_one = record {
  current_iid = 5;
  this_proposer_id = 1;
  current_leader_id = 1;
  alive_ping_seqno = 0;
  to_oracle = new_buffer;
  to_acceptors = sendbuf_clear new_buffer MsgCode.accept_reqs 1;
  proposer_state = λ _. pending_five;
  p1_info = record { pending_count = 1; ready_count = 0; highest_open = 5 };
  p2_info = record { next_unused_iid = 5; open_count = 0 };
  lead_counters = record { p1_timeout = 0; p2_timeout = 0; p2_waits_p1 = 0 };
  values = record { vh_list = []; vh_list_size = 0; dropped_count = 0; notified = [] };
  readings = 0;
}

abbrev promise_five : PrepareAck
promise_five = record { iid = 5; ballot = 21; value_ballot = 10; value = 8 ∷ [] }

leader_set_expiration_lem_example :
    ((leader_set_expiration noon pending_five 30000).timeout.tv_usec < a_second)
    × (970000 + 30000 % a_second ≢ a_second
        → microseconds (leader_set_expiration noon pending_five 30000).timeout
          ≡ microseconds noon + 30000)
    × (970000 + 30000 % a_second ≡ a_second
        → microseconds (leader_set_expiration noon pending_five 30000).timeout + a_second
          ≡ microseconds noon + 30000)
leader_set_expiration_lem_example = leader_set_expiration_lem noon pending_five 30000 (omega arith)

leader_is_expired_iff_example :
    (leader_is_expired noon (ticks 43201) ≡ true) ↔ (microseconds noon < microseconds (ticks 43201))
leader_is_expired_iff_example = leader_is_expired_iff noon (ticks 43201) (omega arith) (omega arith)

ballots_differ_example : (suc 2 ≡ 3) × (suc 1 ≡ 2)
ballots_differ_example =
    ballots_differ 3 3 2 2 (omega arith) (omega arith) (omega arith) (omega arith) refl

save_all-IsHighest_example :
    IsHighest pending_five
      ((promise_five, 0) ∷ (promise_five, 1) ∷ [])
      (save_all pending_five ((promise_five, 0) ∷ (promise_five, 1) ∷ []))
save_all-IsHighest_example =
    save_all-IsHighest pending_five ((promise_five, 0) ∷ (promise_five, 1) ∷ []) refl

one_acceptor_is_a_quorum_example :
    (handle_prepare_acks 2 (promise_five ∷ promise_five ∷ []) leader_one).0 ≡ 1
one_acceptor_is_a_quorum_example =
    one_acceptor_is_a_quorum promise_five 2 leader_one (refl, refl, refl) refl

leader_execute_p2_lem_example :
    (s' : Proposer) × (leader_execute_p2 ticks 5 leader_one ≡ some s')
    × IsSent ticks 5 leader_one (7 ∷ []) s'
unfolding sendbuf_clear
leader_execute_p2_lem_example = leader_execute_p2_lem ticks 5 leader_one (7 ∷ []) refl refl

-- A leader whose instances are ready, with a value that phase 1 found.
abbrev ready_one : Proposer
ready_one = record leader_one {
  proposer_state = λ _. record pending_five {
    status = Status.p1_ready;
    p1_value = some (8 ∷ []);
    p2_value = none;
  };
}

abbrev opened : Proposer
opened = elim (leader_open_instances_p2_new ticks ready_one) [ none ↦ ready_one | some s ↦ s ]

-- Phase 1 of instance 5 is pending, and a value waits for it.
abbrev waiting_leader : Proposer
waiting_leader = record leader_one {
  proposer_state = λ _. counted 5 21 noon 0;
  values = record leader_one.values { vh_list = (7 ∷ []) ∷ []; vh_list_size = 1 };
}

leader_check_p1_pending_lem_example :
    (s' : Proposer) × (leader_check_p1_pending ticks leader_one ≡ some s')
    × ((k : ℕ) → k < 1 → IsChecked (ticks 0) pending_five (instance_of s' (5 + k)))
    × (packed s'.to_acceptors.sent
        ≡ packed leader_one.to_acceptors.sent ++ due_requests (ticks 0) (λ _. pending_five) 1 5)
    × All IsFit s'.to_acceptors.sent
unfolding sendbuf_clear
leader_check_p1_pending_lem_example =
    leader_check_p1_pending_lem ticks leader_one (omega arith) (λ k h. omega (arith, h)) tt
