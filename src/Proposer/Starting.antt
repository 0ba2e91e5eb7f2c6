-- ===== src/Proposer/Starting.antt =====
-- lib/proposer.c: when the start of a proposer succeeds.
use libpaxos.Base.{
  ℕ, ◌<◌, ◌≡◌, Bool, true, false, not, ◌&&◌, Option, some, leb, if◌then◌else◌, refl, Bool-cases,
  inl, inr, arith, ◌==◌, ap, sym, ◌∙◌,
}
use mathlib.Core.Path.{subst}
use libpaxos.Config.{max_n_of_proposers}
use libpaxos.SendBuf.{new_buffer}
use libpaxos.Values.{vh_init}
use libpaxos.Learner.Startup.{
  Calls, custom_fails, init_learner_thread, init_lea_network, init_lea_timers,
  init_lea_signal_ready, result_of,
}
use libpaxos.Acceptor.Setup.{calls_custom_init}
use libpaxos.Proposer.{TimeVal, Proposer, leader_is_me}
use libpaxos.Proposer.Leader.{leader_init, start_leading, no_events}
use libpaxos.Proposer.Handlers.{
  pro_ping_failure_detector, send_ping, init_pro_structs, init_proposer, proposer_init,
}
use libpaxos.Proposer.Sound.Lives.{Lives, proposer_init_lem}
use libpaxos.Proposer.Setup.{
  StartCalls, init_pro_network, init_pro_fd_events, finish, init_proposer_with, proposer_init_with,
  timers_added, all_succeed,
}

module _ (clock : ℕ → TimeVal) where
  -- What the learner's thread makes of the outcome.
  thread_result :
      (l : Calls) (success : Bool)
      → calls_custom_init l ≡ true
      → result_of (init_learner_thread true (record l { custom_init = some success }))
        ≡ success && l.ready_timer
  unfolding init_learner_thread init_lea_network init_lea_timers init_lea_signal_ready
      calls_custom_init
  thread_result l success h = ground arith

  thread_fails :
      (l : Calls) → calls_custom_init l ≡ false → result_of (init_learner_thread true l) ≡ false
  unfolding init_learner_thread init_lea_network init_lea_timers init_lea_signal_ready
      calls_custom_init
  thread_fails l h = ground arith

  -- The calls of `init_proposer` succeed.
  abbrev own_succeed : Bool → StartCalls → Bool
  own_succeed leads c =
      c.acceptors_sender
      && c.proposers_receiver
      && c.oracle_sender
      && c.oracle_receiver
      && not (leads && not c.lead_calls.values_receiver)
      && not (custom_fails c.client_custom_init)

  -- What is left of the start: a result, and on success the state of a start without errors.
  record Outcome (b : Bool) (started : Proposer) (o : Option (Bool × Proposer)) : Type 0 where
    left : Proposer
    result : o ≡ some (b, left)
    same : b ≡ true → left ≡ started

  failed :
      (started left : Proposer) (b : Bool) (o : Option (Bool × Proposer))
      → b ≡ false
      → o ≡ some (false, left)
      → Outcome b started o
  failed started left b o e h = record {
    left = left;
    result = rw (e, h) refl;
    same = λ h'. absurd (ground (arith, e, h'));
  }

  finish-Outcome :
      (c : StartCalls) (s started : Proposer)
      → timers_added clock (leader_is_me s) c ≡ true
      → (if leader_is_me s then start_leading clock s else some s) ≡ some started
      → Outcome
          (not (leader_is_me s && not c.lead_calls.values_receiver)
            && not (custom_fails c.client_custom_init))
          started
          (finish clock c s)
  unfolding finish leader_init
  finish-Outcome c s started t e = elim (Bool-cases (leader_is_me s)) [
    | inl me ↦
        let print : c.lead_calls.print_timer ≡ true = ground (arith, t, me) in
        let p1 : c.lead_calls.p1_timer ≡ true = ground (arith, t, me) in
        let p2 : c.lead_calls.p2_timer ≡ true = ground (arith, t, me) in
        elim (Bool-cases c.lead_calls.values_receiver) [
          | inl v ↦
              let led : start_leading clock s ≡ some started = rw me at e in
              record {
                left = started;
                result = rw (me, print, v, led, p1, p2) refl;
                same = λ _. refl;
              }
          | inr v ↦
              failed started (record s { lead_counters = no_events; values = vh_init s.values }) _ _
                (rw (me, v) refl) (rw (me, print, v) refl)
        ]
    | inr not_me ↦
        let still : some s ≡ some started = rw not_me at e in
        record { left = s; result = rw not_me refl; same = λ _. cc }
  ]

  init_proposer_with-Outcome :
      (c : StartCalls) (s started : Proposer)
      → timers_added clock (leader_is_me s) c ≡ true
      → init_proposer clock s ≡ some started
      → Outcome (own_succeed (leader_is_me s) c) started (init_proposer_with clock c s)
  unfolding init_proposer init_proposer_with init_pro_network init_pro_fd_events finish
      init_pro_structs pro_ping_failure_detector send_ping
  init_proposer_with-Outcome c s started t e = elim (Bool-cases c.acceptors_sender) [
    | inr e0 ↦ failed started s _ _ (rw e0 refl) (rw e0 refl)
    | inl e0 ↦ elim (Bool-cases c.proposers_receiver) [
      | inr e1 ↦
          failed started (record s { to_acceptors = new_buffer }) _ _ (rw (e0, e1) refl)
            (rw (e0, e1) refl)
      | inl e1 ↦ elim (Bool-cases c.oracle_sender) [
        | inr e2 ↦
            failed started (record s { to_acceptors = new_buffer }) _ _ (rw (e0, e1, e2) refl)
              (rw (e0, e1, e2) refl)
        | inl e2 ↦ elim (Bool-cases c.oracle_receiver) [
          | inr e3 ↦
              failed started (record s { to_acceptors = new_buffer; to_oracle = new_buffer }) _ _
                (rw (e0, e1, e2, e3) refl) (rw (e0, e1, e2, e3) refl)
          | inl e3 ↦
              let ping : c.ping_timer ≡ true = ground (arith, t) in
              rw (e0, e1, e2, e3, ping) (finish-Outcome c _ started t e)
        ]
      ]
    ]
  ]

  ran :
      (proposer_id : ℕ) (c : StartCalls) (l : Calls) (s left : Proposer) (b : Bool)
      → proposer_id < max_n_of_proposers
      → calls_custom_init l ≡ true
      → init_proposer_with clock c (record s { this_proposer_id = proposer_id }) ≡ some (b, left)
      → proposer_init_with clock proposer_id c l s ≡ some (b && l.ready_timer, left)
  unfolding proposer_init_with
  ran proposer_id c l s left b small runs e =
      let in_range : leb max_n_of_proposers proposer_id ≡ false = ground (arith, small) in
      rw (in_range, runs, e, thread_result l b runs) refl

  did_not_run :
      (proposer_id : ℕ) (c : StartCalls) (l : Calls) (s : Proposer)
      → proposer_id < max_n_of_proposers
      → calls_custom_init l ≡ false
      → proposer_init_with clock proposer_id c l s
        ≡ some (false, record s { this_proposer_id = proposer_id })
  unfolding proposer_init_with
  did_not_run proposer_id c l s small no_run =
      let in_range : leb max_n_of_proposers proposer_id ≡ false = ground (arith, small) in
      rw (in_range, no_run, thread_fails l no_run) refl

  all_lem :
      (leads : Bool) (c : StartCalls) (l : Calls)
      → calls_custom_init l ≡ true
      → own_succeed leads c && l.ready_timer ≡ all_succeed clock leads c l
  all_lem leads c l runs = ground arith

  -- A proposer whose number is in range, and for whose timers the asserted calls succeed, starts: no
  -- assertion fails, and if the learner's thread is made and `learner_init` returns, 0 is returned
  -- exactly where each other call whose result is looked at succeeds, that for the clients' socket
  -- only if it leads from the start; then it has begun its life. What `event_add` returns for the events of its sockets makes no difference.
  pub proposer_init_with_lem :
      (proposer_id : ℕ) (c : StartCalls) (l : Calls) (s : Proposer)
      → proposer_id < max_n_of_proposers
      → s.current_iid ≡ 1
      → timers_added clock (proposer_id == s.current_leader_id) c ≡ true
      → let ok = all_succeed clock (proposer_id == s.current_leader_id) c l in
        (s' : Proposer) × (proposer_init_with clock proposer_id c l s ≡ some (ok, s'))
        × (ok ≡ true → Lives clock s')
  unfolding proposer_init_with proposer_init
  proposer_init_with_lem proposer_id c l s small first timers =
      let (started, e, lives) = proposer_init_lem clock proposer_id s small first in
      let in_range : leb max_n_of_proposers proposer_id ≡ false = ground (arith, small) in
      let s0 = record s { this_proposer_id = proposer_id } in
      let leads = proposer_id == s.current_leader_id in
      let own : init_proposer clock s0 ≡ some started = rw in_range at e in
      let o = init_proposer_with-Outcome c s0 started timers own in
      elim (Bool-cases (calls_custom_init l)) [
        | inl runs ↦ (
          o.left,
          ran proposer_id c l s o.left (own_succeed leads c) small runs o.result
              ∙ ap (λ b. some (b, o.left)) (all_lem leads c l runs),
          λ h.
              let left : o.left ≡ started = o.same (ground (arith, h)) in
              subst (Lives clock) (sym left) lives,
        )
        | inr no_run ↦
            let not_ok : all_succeed clock leads c l ≡ false = ground arith in
            (
              s0,
              did_not_run proposer_id c l s small no_run ∙ ap (λ b. some (b, s0)) (sym not_ok),
              λ h. absurd (let no : false ≡ true = sym not_ok ∙ h in cc),
            )
      ]
