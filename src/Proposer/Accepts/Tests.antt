-- ===== src/Proposer/Accepts/Tests.antt =====
-- A reign with one value, and the theorem about its accept requests.
use libpaxos.Base.{ℕ, ◌+◌, ◌%◌, ◌≤◌, ◌≡◌, inl, inr, none, some, List, [], ◌∷◌, arith, refl, ◌>>=◌}
use libpaxos.Base.{true, false}
use libpaxos.Config.{max_n_of_proposers}
use libpaxos.Messages.{AcceptReq, MsgCode}
use libpaxos.Receiver.{Body, udp_read_next_message, validate_paxos_msg, expected_size}
use libpaxos.SendBuf.{SendBuf, new_buffer, sendbuf_clear, sendbuf_flush}
use libpaxos.Learner.{init_learner}
use libpaxos.Values.{vh_init, vh_handle_newmsg, vh_enqueue_value}
use libpaxos.Proposer.{TimeVal, Status, Instance, Proposer, for_range, slot}
use libpaxos.Proposer.Ballots.{no_wrap}
use libpaxos.Proposer.Phase2.{
  leader_periodic_p2_check, open_p2_new, leader_open_instances_p2_new, p2_round,
}
use libpaxos.Proposer.Leader.{start_leading}
use libpaxos.Proposer.Reign.{IsClear}
use libpaxos.Proposer.Leader.{LeadCalls, leader_init}
use libpaxos.Proposer.Promotion.{HasStarted, start_leading-started, leader_init_lem, started}
use libpaxos.Proposer.Accepts.{HasSent}
use libpaxos.Proposer.Accepts.Routines.{restarts}
use libpaxos.Proposer.Accepts.Safety.{
  Event, client_message, p2_check, handle_event, reign, IsFresh, one_value_per_ballot,
}

abbrev ticks : ℕ → TimeVal
ticks n = record { tv_sec = n; tv_usec = 0 }

abbrev unused_instance : Instance
unused_instance = record {
  iid = 0;
  status = Status.empty;
  my_ballot = 0;
  promises_bitvector = 0;
  promises_count = 0;
  p1_value = none;
  p1_value_ballot = 0;
  p2_value = none;
  timeout = ticks 0;
}

-- Proposer 1, about to lead.
abbrev fresh : Proposer
fresh = record {
  current_iid = 1;
  this_proposer_id = 1;
  current_leader_id = 1;
  alive_ping_seqno = 0;
  to_oracle = new_buffer;
  to_acceptors = new_buffer;
  proposer_state = λ _. unused_instance;
  p1_info = record { pending_count = 0; ready_count = 0; highest_open = 0 };
  p2_info = record { next_unused_iid = 1; open_count = 0 };
  lead_counters = record { p1_timeout = 0; p2_timeout = 0; p2_waits_p1 = 0 };
  values = record { vh_list = []; vh_list_size = 0; dropped_count = 0; notified = [] };
  readings = 0;
}

fresh-IsFresh : IsFresh fresh
fresh-IsFresh = record {
  is_proposer = omega arith;
  starts = omega arith;
  free = λ i h. omega (arith, h);
  unused = λ ar h. elim h [ inl a ↦ elim a [ ] | inr a ↦ elim a [ ] ];
}

fresh-IsClear : (i : ℕ) → IsClear (fresh.proposer_state i)
fresh-IsClear i = record {
  no_number = refl;
  is_empty = refl;
  no_bits = refl;
  no_promises = refl;
  no_p1_ballot = refl;
  no_p1_value = refl;
  no_p2_value = refl;
}

-- A client's value comes before the first check of phase 2.
abbrev events : List Event
events =
    client_message (some (record { data_size = 1; body = Body.submit (7 ∷ []) }, 17))
    ∷ p2_check true init_learner
    ∷ []

-- The first instance is not ready yet, and the value waits for it.
abbrev waiting : SendBuf → (ℕ → Instance) → ℕ → Proposer
unfolding sendbuf_clear sendbuf_flush vh_init
waiting sb state r =
    let s0 = started ticks fresh sb state r in
    record s0 {
      values = record s0.values { vh_list = (7 ∷ []) ∷ []; vh_list_size = 1 };
      readings = r + 1;
      lead_counters = record s0.lead_counters { p2_waits_p1 = 1 };
      to_acceptors =
          sendbuf_clear (sendbuf_clear (sendbuf_flush sb) MsgCode.prepare_reqs 1)
            MsgCode.accept_reqs 1;
    }

-- No instance is ready yet, so the value is still pending at the end.
first_reign :
    (s' : Proposer) × ((start_leading ticks fresh >>= reign ticks events) ≡ some s')
    × (restarts s' ≡ 0)
    × (s'.values.vh_list ≡ (7 ∷ []) ∷ [])
unfolding reign handle_event leader_periodic_p2_check p2_round for_range
    leader_open_instances_p2_new open_p2_new vh_handle_newmsg udp_read_next_message
    validate_paxos_msg expected_size vh_enqueue_value vh_init sendbuf_clear sendbuf_flush
first_reign =
    let (sb, state, r, e, o) =
      start_leading-started ticks fresh (omega arith) (omega arith)
        (λ k h. fresh-IsClear (slot (1 + k))) in
    let first = o.opened 0 (omega arith) in
    (
      waiting sb state r,
      rw (e, first.no_p2_value, first.no_p1_value, first.pending) refl,
      refl,
      refl,
    )

few : restarts first_reign.0 ≤ no_wrap
few = let none_yet : restarts first_reign.0 ≡ 0 = first_reign.2 in omega (arith, none_yet)

one_value_per_ballot_example :
    ((ar ar' : AcceptReq)
      → HasSent first_reign.0.to_acceptors ar
      → HasSent first_reign.0.to_acceptors ar'
      → ar.iid ≡ ar'.iid
      → ar.ballot ≡ ar'.ballot
      → ar.value ≡ ar'.value)
    × ((ar : AcceptReq)
        → HasSent first_reign.0.to_acceptors ar
        → ar.ballot % max_n_of_proposers ≡ first_reign.0.this_proposer_id)
one_value_per_ballot_example =
    one_value_per_ballot ticks fresh first_reign.0 events fresh-IsFresh (omega arith) first_reign.1
      few

abbrev all_added : LeadCalls
all_added = record { values_receiver = true; print_timer = true; p1_timer = true; p2_timer = true }

leader_init_lem_example :
    (s' : Proposer) × (leader_init ticks all_added fresh ≡ some (true, s'))
    × (true ≡ false
        → (s'.proposer_state ≡ fresh.proposer_state) × (s'.to_acceptors ≡ fresh.to_acceptors))
    × (true ≡ true → HasStarted fresh s')
leader_init_lem_example =
    leader_init_lem ticks all_added fresh refl (omega arith) (omega arith)
      (λ k h. fresh-IsClear (slot (1 + k)))
