-- ===== src/Acceptor/Tests.antt =====
-- Instances of the theorems about an acceptor, over a database kept in memory.
use libpaxos.Base.{ℕ, ◌≤◌, ◌<◌, ◌≡◌, false, none, some, [], ◌∷◌, refl, arith}
use libpaxos.Base.{update}
use libpaxos.Messages.{PrepareReq, AcceptReq, AcceptorRecord}
use libpaxos.SendBuf.{new_buffer}
use libpaxos.Storage.Memory.{Memory, memory_db, memory_reliable, read-view}
use libpaxos.Storage.Laws.{view}
use libpaxos.Learner.Startup.{Calls, Ready}
use libpaxos.Storage.Setup.{Call}
use libpaxos.Storage.Opening.{LeavesFiles}
use libpaxos.Acceptor.Setup.{
  SetupCalls, Files, MayReturn, init_acc_network, init_acc_timers, acceptor_init_recover,
  acceptor_init_recover_lem,
}
use libpaxos.Acceptor.{Acceptor, proposers, learners, handle_prepare_req_batch}
use libpaxos.Acceptor.{handle_accept_req_batch, handle_repeat_req_batch}
use libpaxos.Acceptor.Table.{Ideal, steps, prepare_step, accept_step, accepted}
use libpaxos.Acceptor.Rounds.{Models, Serves}
use libpaxos.Acceptor.Prepare.{handle_prepare_req_batch_lem, handle_prepare_req_batch-Grows, Grows}
use libpaxos.Acceptor.Accept.{handle_accept_req_batch_lem}
use libpaxos.Acceptor.Ballots.{accept_test}
use libpaxos.Acceptor.Repeat.{handle_repeat_req_batch_lem}
use libpaxos.Acceptor.Repeat.{repeated}
use libpaxos.Base.{Option, List, Bool, true, ◌⊎◌, All}
use libpaxos.Receiver.{prepare_reqs, accept_reqs, udp_read_next_message, validate_paxos_msg}
use libpaxos.Receiver.{expected_size, accept_req_batch_size_calc, items_offset}
use libpaxos.Acceptor.Events.{Event, arrival, handle_events, event_steps, Answers}
use libpaxos.Acceptor.Serving.{handle_events_lem}

-- Instance 4 has a value, accepted at ballot 20.
abbrev old_record : AcceptorRecord
old_record = record { iid = 4; ballot = 20; value_ballot = 20; is_final = false; value = 7 ∷ [] }

abbrev memory : Memory
memory = update (λ _. none) 4 (some old_record)

abbrev ideal : Ideal
ideal = record { records = memory; highest = 4 }

abbrev acceptor : Acceptor Memory
acceptor = record {
  this_acceptor_id = 1;
  highest_accepted_iid = 4;
  to_proposers = new_buffer;
  to_learners = new_buffer;
  store = memory;
}

acceptor-Models : Models memory_db acceptor ideal
acceptor-Models = record {
  holds = λ i. read-view (memory i);
  valid = record {
    keyed = λ i r h. ground arith;
    small = λ i r h. ground arith;
    latest = λ n h. cc;
  };
  same_highest = refl;
}

abbrev higher : PrepareReq
higher = record { iid = 4; ballot = 31 }

abbrev stale : AcceptReq
stale = record { iid = 4; ballot = 12; value = 9 ∷ [] }

abbrev fresh : AcceptReq
fresh = record { iid = 4; ballot = 31; value = 7 ∷ [] }

handle_prepare_req_batch_lem_example :
    (a' : Acceptor Memory) × (handle_prepare_req_batch memory_db 0 (higher ∷ []) acceptor ≡ some a')
    × Serves memory_db proposers acceptor
        (steps prepare_step (higher ∷ []) ideal).0
        (steps prepare_step (higher ∷ []) ideal).1
        a'
handle_prepare_req_batch_lem_example =
    handle_prepare_req_batch_lem memory_db memory_reliable 0 (higher ∷ []) acceptor ideal
      acceptor-Models tt

handle_prepare_req_batch-Grows_example :
    (a' : Acceptor Memory) × (handle_prepare_req_batch memory_db 20 (higher ∷ []) acceptor
      ≡ some a')
    × ((i : ℕ) → Grows (view memory_db memory i) (view memory_db a'.store i))
handle_prepare_req_batch-Grows_example =
    handle_prepare_req_batch-Grows memory_db memory_reliable 20 (higher ∷ []) acceptor ideal
      acceptor-Models tt

handle_accept_req_batch_lem_example :
    (a' : Acceptor Memory) × (handle_accept_req_batch memory_db 13 (stale ∷ []) acceptor ≡ some a')
    × Serves memory_db learners acceptor
        (steps accept_step (stale ∷ []) ideal).0
        (steps accept_step (stale ∷ []) ideal).1
        a'
handle_accept_req_batch_lem_example =
    handle_accept_req_batch_lem memory_db memory_reliable 13 (stale ∷ []) acceptor ideal
      (omega arith) acceptor-Models tt

accept_test_example :
    (a' : Acceptor Memory) × (handle_accept_req_batch memory_db 0 (stale ∷ []) acceptor ≡ some a')
    × (12 ≤ 20 → view memory_db a'.store 4 ≡ some (accepted stale))
    × (20 < 12 → view memory_db a'.store 4 ≡ some old_record)
accept_test_example =
    accept_test memory_db memory_reliable 0 stale old_record acceptor ideal refl (omega arith)
      acceptor-Models tt

handle_repeat_req_batch_lem_example :
    (a' : Acceptor Memory) × (handle_repeat_req_batch memory_db 0 (4 ∷ 5 ∷ []) acceptor ≡ some a')
    × Serves memory_db learners acceptor ideal (repeated (view memory_db memory) (4 ∷ 5 ∷ [])) a'
handle_repeat_req_batch_lem_example =
    handle_repeat_req_batch_lem memory_db memory_reliable 0 (4 ∷ 5 ∷ []) acceptor ideal
      acceptor-Models tt

-- The messages of both phases, a tick and a delivery.
abbrev some_events : List Event
some_events =
    arrival 24 (prepare_reqs 3 (higher ∷ []))
    ∷ arrival 29 (accept_reqs 3 (fresh ∷ []))
    ∷ Event.tick
    ∷ Event.delivery (7 ∷ []) 4 31
    ∷ Event.message none
    ∷ []

handle_events_lem_example :
    (a' : Acceptor Memory) × (handle_events memory_db 13 true some_events acceptor ≡ some a')
    × Answers memory_db acceptor (event_steps true some_events ideal) a'
unfolding udp_read_next_message validate_paxos_msg expected_size accept_req_batch_size_calc
    items_offset
handle_events_lem_example =
    handle_events_lem memory_db memory_reliable 13 true some_events acceptor ideal (omega arith)
      (record { models = acceptor-Models; fit_promises = tt; fit_acks = tt })

-- Every call succeeds, but the file of the database is not there.
abbrev all_work : List Call → Call → Bool
all_work log c = true

abbrev no_file : Files
no_file = record { dir_exists = true; db_exists = false }

abbrev good_setup : SetupCalls
good_setup = record {
  proposers_sender = true;
  learners_sender = true;
  acceptor_receiver = true;
  repeat_timer = true;
  learner_thread = true;
}

abbrev good_learner : Calls
good_learner = record {
  event_init = true;
  sender = true;
  receiver = true;
  learner_event = true;
  hole_timer = true;
  custom_init = none;
  ready_timer = true;
}

acceptor_init_recover_lem_example :
    ((3 ≤ 1)
        ⊎ (init_acc_network good_setup ≡ false)
        ⊎ (init_acc_timers good_setup ≡ false)
        ⊎ (false ≡ false)
      → (o : Option Ready) × (acceptor_init_recover all_work 11 no_file 1 good_setup good_learner []
          ≡ some (o, []))
        × ((b : Bool) → MayReturn o b → b ≡ false))
    × ((result : Option Ready) (log : List Call)
        → acceptor_init_recover all_work 11 no_file 1 good_setup good_learner []
          ≡ some (result, log)
        → All LeavesFiles log)
acceptor_init_recover_lem_example =
    acceptor_init_recover_lem all_work 11 no_file 1 good_setup good_learner
