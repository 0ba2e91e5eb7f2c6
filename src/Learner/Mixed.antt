-- ===== src/Learner/Mixed.antt =====
-- Acknowledgements that share a ballot but not a value: the quorum test does not compare values.
use libpaxos.Base.{ℕ, ◌%◌, false, some, List, [], ◌∷◌, ◌≡◌, refl}
use libpaxos.Base.{==_refl}
use libpaxos.Config.{max_n_of_proposers}
use libpaxos.Messages.{AcceptAck}
use libpaxos.Learner.{Learner, init_learner, handle_accept_ack_batch, handle_accept_ack}
use libpaxos.Learner.{note_seen, update_instance, lea_update_state, claim, replace_ack}
use libpaxos.Learner.{lea_store_accept_ack, close_instance, lea_check_quorum, count_agreeing}
use libpaxos.Learner.{count_acks, lea_deliver_next_closed, deliver_loop, deliver_one}
use libpaxos.Learner.{lea_clear_instance_info}
use libpaxos.Learner.History.{run_batches}

-- An acknowledgement for instance 1, as an acceptor repeats it: the value was accepted at
-- `value_ballot`, and a ballot was promised since.
abbrev pub repeated_ack : ℕ → ℕ → List ℕ → AcceptAck
repeated_ack ballot value_ballot value = record {
  iid = 1;
  ballot = ballot;
  value_ballot = value_ballot;
  is_final = false;
  value = value;
}

-- Two acceptors repeat what they accepted for instance 1, after a promise at the same ballot:
-- whatever the two values are, and at whatever ballots they were accepted, the learner closes the
-- instance and delivers the value of the second.
pub learner_mixes_values :
    (ballot x y : ℕ) (v w : List ℕ)
    → (s : Learner) × (run_batches
          ((0, repeated_ack ballot x v ∷ []) ∷ (1, repeated_ack ballot y w ∷ []) ∷ [])
          init_learner
        ≡ some s)
      × (s.delivered
          ≡ record { value = w; iid = 1; ballot = ballot; proposer = ballot % max_n_of_proposers }
            ∷ [])
unfolding run_batches handle_accept_ack_batch handle_accept_ack note_seen update_instance
    lea_update_state claim replace_ack lea_store_accept_ack close_instance lea_check_quorum
    count_agreeing count_acks lea_deliver_next_closed deliver_loop deliver_one
    lea_clear_instance_info
learner_mixes_values ballot x y v w =
    rw (==_refl ballot, close_instance, ==_refl ballot) (_, refl, refl)
