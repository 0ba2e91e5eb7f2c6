-- ===== src/System/Tests.antt =====
-- Instances of the theorems about the parts together.
use libpaxos.Base.{ℕ, ◌+◌, ◌>>=◌, none, some, [], ◌∷◌, ◌≡◌, refl, false, arith}
use libpaxos.Storage.Memory.{Memory, memory_db, memory_reliable}
use libpaxos.Acceptor.{Acceptor}
use libpaxos.Acceptor.Events.{handle_events}
use libpaxos.SendBuf.{new_buffer}
use libpaxos.Proposer.{TimeVal, Status, Proposer, slot}
use libpaxos.Proposer.Reign.{IsClear}
use libpaxos.Proposer.Leader.{start_leading}
use libpaxos.Proposer.Accepts.{HasSent}
use libpaxos.Proposer.Accepts.Safety.{reign}
use libpaxos.System.Leading.{inputs}
use libpaxos.System.Delivery.{requests, HasServed, value_delivered}
use libpaxos.System.{started}
use libpaxos.System.Agreement.{exchange, HasAccepted, Delivers, learners_disagree}

abbrev empty_memory : Memory
empty_memory i = none

learners_disagree_example :
    (a0 : Acceptor Memory) × (a1 : Acceptor Memory) × (handle_events memory_db 0 false
        (exchange 10 11 (7 ∷ []) (8 ∷ []))
        (started 0 empty_memory)
      ≡ some a0)
    × (handle_events memory_db 0 false (exchange 10 11 (7 ∷ []) (8 ∷ [])) (started 1 empty_memory)
        ≡ some a1)
    × HasAccepted memory_db 10 11 (7 ∷ []) (8 ∷ []) a0
    × HasAccepted memory_db 10 11 (7 ∷ []) (8 ∷ []) a1
    × Delivers 11 (8 ∷ [])
    × Delivers 10 (7 ∷ [])
learners_disagree_example =
    learners_disagree memory_db memory_reliable 0 false 10 11 (7 ∷ []) (8 ∷ []) empty_memory
      empty_memory (λ i. refl) (λ i. refl) (omega arith) (omega arith) (omega arith)

abbrev ticks : ℕ → TimeVal
ticks n = record { tv_sec = n; tv_usec = 0 }

-- Proposer 1, about to lead.
abbrev fresh : Proposer
fresh = record {
  current_iid = 1;
  this_proposer_id = 1;
  current_leader_id = 1;
  alive_ping_seqno = 0;
  to_oracle = new_buffer;
  to_acceptors = new_buffer;
  proposer_state = λ _. record {
    iid = 0;
    status = Status.empty;
    my_ballot = 0;
    promises_bitvector = 0;
    promises_count = 0;
    p1_value = none;
    p1_value_ballot = 0;
    p2_value = none;
    timeout = ticks 0;
  };
  p1_info = record { pending_count = 0; ready_count = 0; highest_open = 0 };
  p2_info = record { next_unused_iid = 0; open_count = 0 };
  lead_counters = record { p1_timeout = 0; p2_timeout = 0; p2_waits_p1 = 0 };
  values = record { vh_list = []; vh_list_size = 0; dropped_count = 0; notified = [] };
  readings = 0;
}

fresh-IsClear : (i : ℕ) → IsClear (fresh.proposer_state i)
fresh-IsClear i = record {
  no_number = refl;
  is_empty = refl;
  no_bits = refl;
  no_promises = refl;
  no_p1_ballot = refl;
  no_p1_value = refl;
  no_p2_value = refl;
}

value_delivered_example :
    (s' : Proposer) × (a0 : Acceptor Memory) × (a1 : Acceptor Memory) × ((start_leading ticks fresh
        >>= reign ticks (inputs 1 11 (7 ∷ [])))
      ≡ some s')
    × HasSent s'.to_acceptors (record { iid = 1; ballot = 11; value = 7 ∷ [] })
    × (handle_events memory_db 0 false (requests 1 11 (7 ∷ [])) (started 0 empty_memory) ≡ some a0)
    × (handle_events memory_db 0 false (requests 1 11 (7 ∷ [])) (started 1 empty_memory) ≡ some a1)
    × HasServed memory_db 11 (7 ∷ []) a0
    × HasServed memory_db 11 (7 ∷ []) a1
    × Delivers 11 (7 ∷ [])
value_delivered_example =
    value_delivered memory_db memory_reliable 0 false ticks fresh (7 ∷ []) empty_memory empty_memory
      (omega arith) refl refl (λ k h. fresh-IsClear (slot (1 + k))) (λ i. refl) (λ i. refl)
      (omega arith)
