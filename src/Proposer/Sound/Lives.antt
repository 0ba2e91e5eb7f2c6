-- ===== src/Proposer/Sound/Lives.antt =====
-- lib/proposer.c: no assertion of a proposer fails, and what a leader's counters and records say.
use libpaxos.Base.{◌+◌, ℕ, ◌≤◌, ◌<◌, ◌≡◌, refl, ap, true, false, arith, is_some, some, leb}
use mathlib.Core.Path.{subst}
use libpaxos.SendBuf.{new_buffer}
use libpaxos.Config.{p2_concurrency, proposer_array_size, max_n_of_proposers}
use libpaxos.Proposer.{
  TimeVal, Proposer, leader_is_me, status_number, slot, instance_of, pro_clear_instance_info,
}
use libpaxos.Proposer.Leader.{opened_by_me}
use libpaxos.Proposer.Phase1.{leader_periodic_p1_check}
use libpaxos.Proposer.Phase2.{leader_periodic_p2_check}
use libpaxos.Proposer.Handlers.{
  pro_ping_failure_detector, send_ping, init_pro_structs, init_proposer, proposer_init,
}
use libpaxos.Proposer.Accepts.Safety.{
  Event, message, oracle_message, client_message, delivery, p1_check, ping, p2_check, handle_event,
}
use libpaxos.Proposer.Sound.{
  Succeeds, succeeds, Succeeds-bind, Succeeds-map, Succeeds-if, Succeeds-result, Succeeds-at,
}
use libpaxos.Proposer.Sound.Count.{count}
use libpaxos.Proposer.Sound.Array.{is_pending, is_ready, IsUsed, Sound-at}
use libpaxos.Proposer.Sound.Ahead.{p1_round-Succeeds}
use libpaxos.Proposer.Sound.Timeouts.{p2_round-Succeeds}
use libpaxos.Proposer.Sound.Change.{start_leading-Succeeds}
use libpaxos.Proposer.Sound.Life.{
  IsAdmissible, IsFit, IsFit-idle, Leads-IsFit, vh_handle_newmsg-IsQueue, message-IsFit,
  oracle_message-IsFit, delivery-IsFit,
}

module _ (clock : ℕ → TimeVal) where
  -- A proposer from its start on, as the event loop hands it one event after another.
  pub data Lives : Proposer → Type 0 where
    starts :
        (proposer_id : ℕ) (s s' : Proposer)
        → proposer_id < max_n_of_proposers
        → s.current_iid ≡ 1
        → proposer_init clock proposer_id s ≡ some s'
        → Lives s'
    follows :
        (e : Event) (s s' : Proposer)
        → Lives s
        → IsAdmissible e s
        → handle_event clock e s ≡ some s'
        → Lives s'

  handle_event-IsFit :
      (e : Event) (s : Proposer)
      → IsAdmissible e s
      → IsFit s
      → Succeeds IsFit (handle_event clock e s)
  unfolding handle_event leader_periodic_p1_check leader_periodic_p2_check pro_ping_failure_detector
      send_ping
  handle_event-IsFit (message received) s a f = message-IsFit clock received s f
  handle_event-IsFit (oracle_message c received) s (bound, ends, added) f =
      oracle_message-IsFit clock c received s bound ends added f
  handle_event-IsFit (client_message received) s a f = succeeds (record {
    leading = λ me.
        let g = f.leading me in
        record {
          window = g.window;
          counts = g.counts;
          queue = vh_handle_newmsg-IsQueue received s.values g.queue;
          few_open = g.few_open;
        };
    idle = λ not_me. f.idle not_me;
  })
  handle_event-IsFit (delivery value iid) s (e, bound, opened) f =
      delivery-IsFit clock value iid s e bound opened f
  handle_event-IsFit (p1_check added) s (ok, me, narrow, bound) f = rw ok (
      Succeeds-bind
        (p1_round-Succeeds clock s.p2_info.next_unused_iid s.p2_info.open_count s narrow bound
          (f.leading me))
        (λ s' (a, b, ids, g). succeeds (
          Leads-IsFit s s' me ids (
            Sound-at s'.current_iid s'.p1_info.highest_open s'.p2_info.next_unused_iid
              s'.p1_info.pending_count s'.p1_info.ready_count s'.p2_info.open_count a refl
              (ap (λ p. p.next_unused_iid) b) refl refl (ap (λ p. p.open_count) b) g))))
  handle_event-IsFit (p2_check added learner) s (ok, me) f = rw ok (
      Succeeds-bind (p2_round-Succeeds clock learner s (f.leading me))
        (λ s' (ids, g). succeeds (Leads-IsFit s s' me ids g)))
  handle_event-IsFit (ping added) s ok f =
      rw ok (succeeds (record { leading = λ me. f.leading me; idle = λ not_me. f.idle not_me }))

  init_proposer-IsFit : (s : Proposer) → s.current_iid ≡ 1 → Succeeds IsFit (init_proposer clock s)
  unfolding init_proposer init_pro_structs pro_clear_instance_info send_ping
  init_proposer-IsFit s first =
      let s0 =
        init_pro_structs
          (send_ping (record s { to_acceptors = new_buffer; to_oracle = new_buffer })) in
      Succeeds-if (leader_is_me s0)
        (λ me.
          Succeeds-map
            (start_leading-Succeeds clock s0 (omega (arith, first)) (omega (arith, first))
              (λ j. (refl, refl)))
            (λ s' (_, ids, g). Leads-IsFit s0 s' me ids g))
        (λ not_me. succeeds (IsFit-idle s0 not_me (omega (arith, first)) (λ j. (refl, refl))))

  proposer_init-IsFit :
      (proposer_id : ℕ) (s : Proposer)
      → proposer_id < max_n_of_proposers
      → s.current_iid ≡ 1
      → Succeeds IsFit (proposer_init clock proposer_id s)
  unfolding proposer_init
  proposer_init-IsFit proposer_id s small first =
      Succeeds-if (leb max_n_of_proposers proposer_id) (λ e. absurd (ground (arith, e, small)))
        (λ _. init_proposer-IsFit (record s { this_proposer_id = proposer_id }) first)

  Lives-IsFit : (s : Proposer) → Lives s → IsFit s
  Lives-IsFit _ (starts proposer_id s s' small first e) =
      Succeeds-at (subst (Succeeds IsFit) e (proposer_init-IsFit proposer_id s small first))
  Lives-IsFit _ (follows e s s' l a h) =
      Succeeds-at (subst (Succeeds IsFit) h (handle_event-IsFit e s a (Lives-IsFit s l)))

  -- A proposer starts, if its number is below MAX_N_OF_PROPOSERS.
  pub proposer_init_lem :
      (proposer_id : ℕ) (s : Proposer)
      → proposer_id < max_n_of_proposers
      → s.current_iid ≡ 1
      → (s' : Proposer) × (proposer_init clock proposer_id s ≡ some s') × Lives s'
  proposer_init_lem proposer_id s small first =
      let (s', e, _) = Succeeds-result (proposer_init-IsFit proposer_id s small first) in
      (s', e, starts proposer_id s s' small first e)

  -- From its start on, through promotions and step downs, no assertion of a proposer fails and
  -- every loop ends, whatever messages it gets: its learner delivers the instances one after
  -- another, and while it leads only those that it has opened; its timers run during its reign, and
  -- that of phase 1 where the next window fits the array; the calls that add a timer or a receiver
  -- succeed; the instance numbers do not wrap around, and the highest one opened is below 2^32 - 1
  -- when a leader hears of a leader.
  pub event_succeeds :
      (e : Event) (s : Proposer)
      → Lives s
      → IsAdmissible e s
      → (s' : Proposer) × (handle_event clock e s ≡ some s') × Lives s'
  event_succeeds e s l a =
      let (s', h, _) = Succeeds-result (handle_event-IsFit e s a (Lives-IsFit s l)) in
      (s', h, follows e s s' l a h)

  -- While such a proposer leads, its counter of pending instances is their number, that of open
  -- ones the number of those that have a value and are not complete, at most one more than
  -- PROPOSER_P2_CONCURRENCY, and that of ready ones no less than theirs. Its records are a window:
  -- each instance from the current one to the highest opened has its slot and number; it has a
  -- value exactly if it is below the next unused one, and has otherwise not gone beyond phase 1;
  -- and no other record is in use.
  pub leader_window :
      (s : Proposer)
      → Lives s
      → leader_is_me s ≡ true
      → let next = s.p2_info.next_unused_iid in
        let state = s.proposer_state in
        (s.p1_info.pending_count ≡ count is_pending proposer_array_size state)
        × (count is_ready proposer_array_size state ≤ s.p1_info.ready_count)
        × (s.p2_info.open_count ≡ count opened_by_me proposer_array_size state)
        × (s.p2_info.open_count ≤ p2_concurrency + 1)
        × ((i : ℕ)
            → s.current_iid ≤ i
            → i ≤ s.p1_info.highest_open
            → ((instance_of s i).iid ≡ i)
              × IsUsed (instance_of s i)
              × (i < next → is_some (instance_of s i).p2_value ≡ true)
              × (next ≤ i
                  → (is_some (instance_of s i).p2_value ≡ false)
                    × (status_number (instance_of s i).status ≤ 2)))
        × ((j : ℕ)
            → IsUsed (state j)
            → (slot (state j).iid ≡ j)
              × (s.current_iid ≤ (state j).iid)
              × ((state j).iid ≤ s.p1_info.highest_open))
  leader_window s l me =
      let g = (Lives-IsFit s l).leading me in
      let w = g.window in
      (
        g.counts.all_pending,
        g.counts.all_ready,
        g.counts.all_opened,
        g.few_open,
        λ i low high.
            let (held, number) = w.held i low high in
            let p = w.used (slot i) held in
            (
              number,
              held,
              λ b. p.begun (omega (arith, number, b)),
              λ b. p.unbegun (omega (arith, number, b)),
            ),
        λ j held. let p = w.used j held in (p.place, p.low, p.high),
      )
