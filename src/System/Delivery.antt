-- ===== src/System/Delivery.antt =====
-- A value on its way through the whole system: from a client to a new leader, in requests to two
-- acceptors, and in their acknowledgements to a learner.
use libpaxos.Base.{
  ℕ, ◌+◌, ◌<◌, ◌≡◌, refl, ◌∙◌, Bool, true, none, some, List, [], ◌∷◌, All, length, arith, ◌>>=◌,
  leb,
}
use libpaxos.Config.{preexec_win_size, max_n_of_proposers}
use libpaxos.Messages.{Item}
use libpaxos.SendBuf.Batches.{packed}
use libpaxos.Storage.{Db}
use libpaxos.Storage.Laws.{IsReliable, view}
use libpaxos.Values.{Value}
use libpaxos.Acceptor.{Acceptor}
use libpaxos.Acceptor.Events.{arrival, handle_events, event_steps, IsServable}
use libpaxos.Acceptor.Table.{steps, promise, acceptance, small_value}
use libpaxos.Acceptor.Serving.{handle_events_lem}
use libpaxos.System.{started}
use libpaxos.Learner.Mixed.{repeated_ack, learner_mixes_values}
use libpaxos.Proposer.{TimeVal, Proposer, leader_is_me, instance_of, first_ballot}
use libpaxos.Proposer.Reign.{IsClear}
use libpaxos.Acceptor.Events
use libpaxos.Proposer.Leader.{start_leading}
use libpaxos.Proposer.Progress.Steps.{empty_promise}
use mathlib.Core.Path.{subst}
use libpaxos.Proposer.Accepts.{HasSent}
use libpaxos.Proposer.Accepts.Safety.{reign}
use libpaxos.System.Agreement.{
  arrival_read, Delivers, prepare_of, accept_of, empty_table, started-IsReady,
}
use libpaxos.System.Leading.{inputs, leader_sends}

-- The requests of the leader to an acceptor.
abbrev pub requests : ℕ → ℕ → Value → List Events.Event
requests id ballot v =
    arrival 24 (prepare_of id ballot) ∷ arrival (28 + length v) (accept_of id ballot v) ∷ []

-- What an acceptor has answered: a promise without a value, and the acknowledgement.
pub record HasServed (db : Db) (ballot : ℕ) (v : Value) (a : Acceptor db.Store) : Type 0 where
  pub promises : packed a.to_proposers.sent ≡ Item.prepare_ack (empty_promise 1 ballot) ∷ []
  pub acks : packed a.to_learners.sent ≡ Item.accept_ack (repeated_ack ballot ballot v) ∷ []

module _ (id ballot : ℕ) (v : Value) (valid : id < max_n_of_proposers)
    (small : length v < small_value) where
  answers :
      (flag : Bool)
      → ((event_steps flag (requests id ballot v) empty_table).1
          ≡ Item.prepare_ack (empty_promise 1 ballot) ∷ [])
        × ((event_steps flag (requests id ballot v) empty_table).2
            ≡ Item.accept_ack (repeated_ack ballot ballot v) ∷ [])
  unfolding event_steps steps promise acceptance
  answers flag =
      let p = arrival_read 24 (prepare_of id ballot) (omega arith) valid in
      let q = arrival_read (28 + length v) (accept_of id ballot v) (omega (arith, small)) valid in
      let same : leb ballot ballot ≡ true = ground arith in rw (p, q, same) (refl, refl)

  requests-IsServable : All IsServable (requests id ballot v)
  requests-IsServable =
      let p = arrival_read 24 (prepare_of id ballot) (omega arith) valid in
      let q = arrival_read (28 + length v) (accept_of id ballot v) (omega (arith, small)) valid in
      rw (p, q) (tt, ((small, tt), tt))

module _ (db : Db) (law : IsReliable db) (mode : ℕ) (flag : Bool) where
  acceptor_serves :
      (id ballot : ℕ) (v : Value) (acceptor_id : ℕ) (store : db.Store)
      → id < max_n_of_proposers
      → ((i : ℕ) → view db store i ≡ none)
      → length v < small_value
      → (a : Acceptor db.Store) × (handle_events db mode flag
            (requests id ballot v)
            (started acceptor_id store)
          ≡ some a)
        × HasServed db ballot v a
  acceptor_serves id ballot v acceptor_id store valid empty small =
      let (a, run, o) =
        handle_events_lem db law mode flag (requests id ballot v) (started acceptor_id store)
          empty_table (requests-IsServable id ballot v valid small)
          (started-IsReady db law mode flag acceptor_id store empty) in
      let (ps, qs) = answers id ballot v valid small flag in
      (a, run, record { promises = o.promises ∙ ps; acks = o.acks ∙ qs })

  -- A value gets through: a proposer becomes the leader where nothing has been delivered, the calls
  -- for its timers and its receiver succeed, and it gets a
  -- value from a client that fits an acknowledgement, and the promises of two acceptors for its
  -- first ballot; it sends an accept request with the value, and no assertion fails. The promises
  -- are what the acceptors answer to a prepare request with that ballot, on reliable databases
  -- that are empty, and what they answer to the accept request makes a learner deliver the value.
  pub value_delivered :
      (clock : ℕ → TimeVal) (s : Proposer) (v : Value) (s0 s1 : db.Store)
      → s.this_proposer_id < max_n_of_proposers
      → leader_is_me s ≡ true
      → s.current_iid ≡ 1
      → ((k : ℕ) → k < preexec_win_size → IsClear (instance_of s (s.current_iid + k)))
      → ((i : ℕ) → view db s0 i ≡ none)
      → ((i : ℕ) → view db s1 i ≡ none)
      → length v < small_value
      → let id = s.this_proposer_id in
        let ballot = first_ballot id in
        (s' : Proposer) × (a0 : Acceptor db.Store) × (a1 : Acceptor db.Store) × ((start_leading
              clock s
            >>= reign clock (inputs 1 ballot v))
          ≡ some s')
        × HasSent s'.to_acceptors (record { iid = 1; ballot = ballot; value = v })
        × (handle_events db mode flag (requests id ballot v) (started 0 s0) ≡ some a0)
        × (handle_events db mode flag (requests id ballot v) (started 1 s1) ≡ some a1)
        × HasServed db ballot v a0
        × HasServed db ballot v a1
        × Delivers ballot v
  value_delivered clock s v s0 s1 valid me first free e0 e1 small =
      let id = s.this_proposer_id in
      let ballot = first_ballot id in
      let (s', run, sent) =
        subst
          (λ n.
            (s' : Proposer) × ((start_leading clock s >>= reign clock (inputs n ballot v))
              ≡ some s')
            × HasSent s'.to_acceptors (record { iid = n; ballot = ballot; value = v }))
          first
          (leader_sends clock s v (omega (arith, small)) me (omega (arith, first))
            (omega (arith, first)) free) in
      let (a0, run0, h0) = acceptor_serves id ballot v 0 s0 valid e0 small in
      let (a1, run1, h1) = acceptor_serves id ballot v 1 s1 valid e1 small in
      (s', a0, a1, run, sent, run0, run1, h0, h1, learner_mixes_values ballot ballot ballot v v)
