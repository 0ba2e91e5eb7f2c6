-- ===== src/System/Agreement.antt =====
-- Two proposers, two acceptors and two learners: what the inverted test of `acc_apply_accept` does
-- to agreement.
use libpaxos.Base.{ℕ, ◌+◌, ◌%◌, ◌<◌, Bool, true, false, none, some, List, [], ◌∷◌, All}
use libpaxos.Base.{◌≡◌, refl, ◌∙◌, length, arith, leb}
use libpaxos.Config.{u64_mod, max_n_of_proposers}
use libpaxos.Messages.{Item, paxos_msg_header}
use libpaxos.Receiver.{Body, udp_read_next_message, prepare_reqs, accept_reqs}
use libpaxos.Receiver.Checks.{HasValidSender, validate_paxos_msg_iff}
use libpaxos.SendBuf.Batches.{packed}
use libpaxos.Storage.{Db}
use libpaxos.Storage.Laws.{IsReliable, view}
use libpaxos.Acceptor.{Acceptor}
use libpaxos.Acceptor.Table.{Ideal, steps, promise, acceptance, small_value}
use libpaxos.Acceptor.Events.{Event, handle_events, event_steps, IsReady, IsServable}
use libpaxos.Acceptor.Serving.{handle_events_lem}
use libpaxos.Learner.{Learner, init_learner}
use libpaxos.Learner.History.{run_batches}
use libpaxos.Learner.Mixed.{repeated_ack, learner_mixes_values}
use libpaxos.Acceptor.Events.{arrival}
use libpaxos.System.{started}

pub arrival_read :
    (size : ℕ) (body : Body)
    → size + paxos_msg_header < u64_mod
    → HasValidSender body
    → udp_read_next_message
        (some (record { data_size = size; body = body }, size + paxos_msg_header))
      ≡ some body
unfolding udp_read_next_message
arrival_read size body small h =
    let passes =
      (validate_paxos_msg_iff (record { data_size = size; body = body })
          (size + paxos_msg_header)).1
        (omega (arith, small), h) in
    rw passes

-- The requests of a proposer for instance 1.
abbrev pub prepare_of : ℕ → ℕ → Body
prepare_of proposer_id b = prepare_reqs proposer_id (record { iid = 1; ballot = b } ∷ [])

abbrev pub accept_of : ℕ → ℕ → List ℕ → Body
accept_of proposer_id b x = accept_reqs proposer_id (record { iid = 1; ballot = b; value = x } ∷ [])

-- Both proposers complete phase 1 for instance 1 and find no value; the second proposes `w` at the
-- higher ballot, and then the request of the first arrives, with `v` at the lower one.
abbrev pub exchange : ℕ → ℕ → List ℕ → List ℕ → List Event
exchange b b' v w =
    arrival 24 (prepare_of 0 b)
    ∷ arrival 24 (prepare_of 1 b')
    ∷ arrival (28 + length w) (accept_of 1 b' w)
    ∷ arrival (28 + length v) (accept_of 0 b v)
    ∷ []

-- What the four messages are read as.
abbrev Reads : ℕ → Body → Type 0
Reads size body =
    udp_read_next_message (some (record { data_size = size; body = body }, size + paxos_msg_header))
    ≡ some body

exchange-Reads :
    (b b' : ℕ) (v w : List ℕ)
    → length v < small_value
    → length w < small_value
    → Reads 24 (prepare_of 0 b)
      × Reads 24 (prepare_of 1 b')
      × Reads (28 + length w) (accept_of 1 b' w)
      × Reads (28 + length v) (accept_of 0 b v)
exchange-Reads b b' v w sv sw = (
  arrival_read 24 (prepare_of 0 b) (omega arith) (omega arith),
  arrival_read 24 (prepare_of 1 b') (omega arith) (omega arith),
  arrival_read (28 + length w) (accept_of 1 b' w) (omega (arith, sw)) (omega arith),
  arrival_read (28 + length v) (accept_of 0 b v) (omega (arith, sv)) (omega arith),
)

abbrev pub empty_promise : ℕ → Item
empty_promise b = Item.prepare_ack record { iid = 1; ballot = b; value_ballot = 0; value = [] }

abbrev pub empty_table : Ideal
empty_table = record { records = λ _. none; highest = 0 }

exchange_answers :
    (flag : Bool) (b b' : ℕ) (v w : List ℕ)
    → b < b'
    → length v < small_value
    → length w < small_value
    → ((event_steps flag (exchange b b' v w) empty_table).1
        ≡ empty_promise b ∷ empty_promise b' ∷ [])
      × ((event_steps flag (exchange b b' v w) empty_table).2
          ≡ Item.accept_ack (repeated_ack b' b' w) ∷ Item.accept_ack (repeated_ack b b v) ∷ [])
unfolding event_steps steps promise acceptance
exchange_answers flag b b' v w h sv sw =
    let up : leb b' b ≡ false = ground arith in
    let same : leb b' b' ≡ true = ground arith in
    let low : leb b b' ≡ true = ground arith in
    let (p, q, r, s) = exchange-Reads b b' v w sv sw in rw (p, q, up, r, same, s, low) (refl, refl)

exchange-IsServable :
    (b b' : ℕ) (v w : List ℕ)
    → length v < small_value
    → length w < small_value
    → All IsServable (exchange b b' v w)
exchange-IsServable b b' v w sv sw =
    let (p, q, r, s) = exchange-Reads b b' v w sv sw in
    rw (p, q, r, s) (tt, (tt, ((sw, tt), ((sv, tt), tt))))

-- Both acceptors and a learner run: what is delivered for instance 1 is `x`, of the ballot.
abbrev pub Delivers : ℕ → List ℕ → Type 0
Delivers ballot x =
    (s : Learner) × (run_batches
        ((0, repeated_ack ballot ballot x ∷ []) ∷ (1, repeated_ack ballot ballot x ∷ []) ∷ [])
        init_learner
      ≡ some s)
    × (s.delivered
        ≡ record { value = x; iid = 1; ballot = ballot; proposer = ballot % max_n_of_proposers }
          ∷ [])

module _ (db : Db) where
  -- What an acceptor has sent: its promises hold no value, and it accepted `w` and then `v`.
  pub record HasAccepted (b b' : ℕ) (v w : List ℕ) (a : Acceptor db.Store) : Type 0 where
    pub promises : packed a.to_proposers.sent ≡ empty_promise b ∷ empty_promise b' ∷ []
    pub acks :
        packed a.to_learners.sent
        ≡ Item.accept_ack (repeated_ack b' b' w) ∷ Item.accept_ack (repeated_ack b b v) ∷ []

module _ (db : Db) (law : IsReliable db) (mode : ℕ) (flag : Bool) where
  pub started-IsReady :
      (id : ℕ) (store : db.Store)
      → ((i : ℕ) → view db store i ≡ none)
      → IsReady db (started id store) empty_table
  started-IsReady id store empty = record {
    models = record {
      holds = empty;
      valid = record {
        keyed = λ i r h. absurd (cc);
        small = λ i r h. absurd (cc);
        latest = λ n h. n refl;
      };
      same_highest = refl;
    };
    fit_promises = tt;
    fit_acks = tt;
  }

  exchange_lem :
      (id : ℕ) (store : db.Store) (b b' : ℕ) (v w : List ℕ)
      → ((i : ℕ) → view db store i ≡ none)
      → b < b'
      → length v < small_value
      → length w < small_value
      → (a : Acceptor db.Store) × (handle_events db mode flag (exchange b b' v w) (started id store)
          ≡ some a)
        × HasAccepted db b b' v w a
  exchange_lem id store b b' v w empty up sv sw =
      let ready = started-IsReady id store empty in
      let small = exchange-IsServable b b' v w sv sw in
      let (a, run, o) =
        handle_events_lem db law mode flag (exchange b b' v w) (started id store) empty_table small
          ready in
      let (ps, qs) = exchange_answers flag b b' v w up sv sw in
      (a, run, record { promises = o.promises ∙ ps; acks = o.acks ∙ qs })

  -- Agreement fails: on reliable databases that are empty, for any two values that fit a message
  -- and any two ballots, two acceptors answer the prepare requests of both ballots with empty
  -- promises, accept the value of the higher ballot, and then accept that of the lower; a learner
  -- that hears the first acknowledgements delivers the one value for instance 1, and a learner that
  -- hears the second delivers the other.
  pub learners_disagree :
      (b b' : ℕ) (v w : List ℕ) (s0 s1 : db.Store)
      → ((i : ℕ) → view db s0 i ≡ none)
      → ((i : ℕ) → view db s1 i ≡ none)
      → b < b'
      → length v < small_value
      → length w < small_value
      → (a0 : Acceptor db.Store) × (a1 : Acceptor db.Store) × (handle_events db mode flag
            (exchange b b' v w)
            (started 0 s0)
          ≡ some a0)
        × (handle_events db mode flag (exchange b b' v w) (started 1 s1) ≡ some a1)
        × HasAccepted db b b' v w a0
        × HasAccepted db b b' v w a1
        × Delivers b' w
        × Delivers b v
  learners_disagree b b' v w s0 s1 e0 e1 up sv sw =
      let (a0, run0, h0) = exchange_lem 0 s0 b b' v w e0 up sv sw in
      let (a1, run1, h1) = exchange_lem 1 s1 b b' v w e1 up sv sw in
      (
        a0,
        a1,
        run0,
        run1,
        h0,
        h1,
        learner_mixes_values b' b' b' w w,
        learner_mixes_values b b b v v,
      )
