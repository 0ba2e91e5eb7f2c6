-- ===== src/Proposer/Sound/Life.antt =====
-- lib/proposer.c: the whole life of a proposer, through any number of reigns.
use libpaxos.Base.{
  ℕ, ◌+◌, ◌%◌, ◌≤◌, ◌<◌, ◌≡◌, inl, inr, refl, sym, ◌∙◌, true, false, ◌==◌, arith, not, ◌&&◌,
  Bool-cases, Option, some, ◌>>=◌,
}
use libpaxos.Config.{u32_mod, u64_mod, proposer_array_size, preexec_win_size}
use libpaxos.Receiver.{Datagram, Body, udp_read_next_message, leader_announce, prepare_acks}
use libpaxos.Values.{Value, vh_handle_newmsg}
use libpaxos.Values.Queue.{IsQueue}
use libpaxos.Values.{vh_enqueue_value}
use libpaxos.Values.Queue.{vh_enqueue_value_lem}
use libpaxos.Receiver.{submit}
use libpaxos.Proposer.{TimeVal, Proposer, leader_is_me}
use libpaxos.Proposer.Leader.{LeadCalls, leader_init, start_leading}
use libpaxos.Proposer.Handlers.{
  pro_deliver_callback, pro_handle_newmsg, handle_prepare_ack_batch, change_leader,
  pro_handle_oracle_msg,
}
use libpaxos.Proposer.Accepts.Safety.{
  Event, message, oracle_message, client_message, delivery, p1_check, ping, p2_check,
}
use libpaxos.Proposer.Sound.{Succeeds, succeeds, Succeeds-bind, Succeeds-map, Succeeds-if}
use libpaxos.Proposer.Sound.Array.{SameIds, IsSound, Sound-at}
use libpaxos.Proposer.Sound.Promise.{pro_handle_newmsg-Succeeds}
use libpaxos.Proposer.Sound.Delivery.{leader_deliver-Succeeds}
use libpaxos.Proposer.Sound.Change.{AllFree, leader_shutdown-Succeeds, start_leading-Succeeds}

-- The calls of a promotion succeed.
pub record AllAdded (c : LeadCalls) : Type 0 where
  pub values : c.values_receiver ≡ true
  pub print : c.print_timer ≡ true
  pub p1 : c.p1_timer ≡ true
  pub p2 : c.p2_timer ≡ true

-- What the theorems ask of an event, in a state. Messages may be anything. The timers of the leader
-- run during its reign only, and the calls that add a timer or a receiver succeed. The learner delivers the instances one after another, and while the
-- proposer leads, only those that it has opened; the next window must fit the array.
-- At a step down, the loop over an `unsigned int` must be able to pass the highest instance opened.
abbrev pub IsAdmissible : Event → Proposer → Type 0
IsAdmissible (message received) s = Unit
IsAdmissible (oracle_message c received) s =
    (s.current_iid + preexec_win_size < u64_mod)
    × (leader_is_me s ≡ true → s.p1_info.highest_open + 1 < u32_mod)
    × (leader_is_me s ≡ false → AllAdded c)
IsAdmissible (client_message received) s = Unit
IsAdmissible (delivery value iid) s =
    (iid ≡ s.current_iid)
    × (iid + 1 < u64_mod)
    × (leader_is_me s ≡ true → iid ≤ s.p1_info.highest_open)
IsAdmissible (p1_check added) s =
    (added ≡ true)
    × (leader_is_me s ≡ true)
    × (s.p1_info.highest_open + 1 + preexec_win_size < s.current_iid + proposer_array_size)
    × (s.p1_info.highest_open + 1 + preexec_win_size < u64_mod)
IsAdmissible (p2_check added learner) s = (added ≡ true) × (leader_is_me s ≡ true)
IsAdmissible (ping added) s = added ≡ true

-- A leader keeps its window, and another proposer has nothing open.
pub record IsFit (s : Proposer) : Type 0 where
  pub leading : leader_is_me s ≡ true → IsSound s
  pub idle : leader_is_me s ≡ false → (1 ≤ s.current_iid) × AllFree s

same_leader : (s s' : Proposer) → SameIds s s' → leader_is_me s' ≡ leader_is_me s
same_leader s s' (a, b) = rw (a, b) refl

-- The two cases of a proposer.
pub IsFit-leader : (s : Proposer) → leader_is_me s ≡ true → IsSound s → IsFit s
IsFit-leader s me g = record {
  leading = λ _. g;
  idle = λ not_me. absurd (let no : true ≡ false = sym me ∙ not_me in cc);
}

pub IsFit-idle : (s : Proposer) → leader_is_me s ≡ false → 1 ≤ s.current_iid → AllFree s → IsFit s
IsFit-idle s not_me low free = record {
  leading = λ me. absurd (let no : true ≡ false = sym me ∙ not_me in cc);
  idle = λ _. (low, free);
}

pub Leads-IsFit : (s s' : Proposer) → leader_is_me s ≡ true → SameIds s s' → IsSound s' → IsFit s'
Leads-IsFit s s' me ids g = IsFit-leader s' (same_leader s s' ids ∙ me) g

pub vh_handle_newmsg-IsQueue :
    (received : Option (Datagram × ℕ)) (vh : _)
    → IsQueue vh
    → IsQueue (vh_handle_newmsg received vh)
unfolding vh_handle_newmsg
vh_handle_newmsg-IsQueue received vh q = by_message (udp_read_next_message received)
  where
    by_message :
        (m : Option Body)
        → IsQueue (elim m [ some (submit value) ↦ vh_enqueue_value value vh | _ ↦ vh ])
    by_message (some (submit value)) = (vh_enqueue_value_lem value vh q).0
    by_message _ = q

module _ (clock : ℕ → TimeVal) where
  -- The messages of an idle proposer's socket are dropped.
  pub message-IsFit :
      (received : Option (Datagram × ℕ)) (s : Proposer)
      → IsFit s
      → Succeeds IsFit (pro_handle_newmsg clock received s)
  unfolding pro_handle_newmsg handle_prepare_ack_batch
  message-IsFit received s f = elim (Bool-cases (leader_is_me s)) [
    | inl me ↦
        Succeeds-map (pro_handle_newmsg-Succeeds clock received s (f.leading me))
          (λ s' (ids, g). Leads-IsFit s s' me ids g)
    | inr not_me ↦ by_message not_me (udp_read_next_message received)
  ]
    where
      by_message :
          leader_is_me s ≡ false
          → (m : Option Body)
          → Succeeds IsFit (elim m [
            | some (prepare_acks acceptor_id pas) ↦ handle_prepare_ack_batch clock acceptor_id pas s
            | _ ↦ some s
          ])
      by_message not_me (some (prepare_acks acceptor_id pas)) = rw not_me (succeeds f)
      by_message not_me _ = succeeds f

  -- A promotion does the work of `start_leading`.
  pub leader_init-Succeeds :
      {P : Proposer → Type 0} (c : LeadCalls) (s : Proposer)
      → AllAdded c
      → Succeeds P (start_leading clock s)
      → Succeeds P (leader_init clock c s >>= λ r. some r.1)
  unfolding leader_init
  leader_init-Succeeds {P = P} c s a h =
      rw (a.print, a.values, a.p1, a.p2)
        (Succeeds-bind {P = λ r. P r.1} (Succeeds-bind h (λ s' g. succeeds g)) (λ r g. succeeds g))

  change_leader-IsFit :
      (c : LeadCalls) (current_leader : ℕ) (s : Proposer)
      → s.current_iid + preexec_win_size < u64_mod
      → (leader_is_me s ≡ true → s.p1_info.highest_open + 1 < u32_mod)
      → (leader_is_me s ≡ false → AllAdded c)
      → IsFit s
      → Succeeds
          (λ s'. IsFit (record s' { current_leader_id = current_leader }))
          (change_leader clock c current_leader s)
  unfolding change_leader
  change_leader-IsFit c current_leader s bound ends added f =
      let announced = current_leader == s.this_proposer_id in
      Succeeds-if (leader_is_me s && not announced)
        (λ e.
          let me : leader_is_me s ≡ true = ground arith in
          let other : announced ≡ false = ground arith in
          let low = (f.leading me).window.starts in
          Succeeds-map (leader_shutdown-Succeeds s (f.leading me) (ends me)) (λ s' (a, b, free).
            IsFit-idle _ (rw a (ground (arith, other))) (omega (arith, low, b)) free))
        (λ e.
          Succeeds-if (not (leader_is_me s) && announced)
            (λ e'.
              let not_me : leader_is_me s ≡ false = ground arith in
              let this : announced ≡ true = ground arith in
              let (low, free) = f.idle not_me in
              Succeeds-map
                (leader_init-Succeeds c s (added not_me)
                  (start_leading-Succeeds clock s low bound free))
                (λ s' (a, (b, _), g). IsFit-leader _ (rw b (ground (arith, this))) g))
            (λ e'. succeeds (elim (Bool-cases (leader_is_me s)) [
              | inl me ↦ IsFit-leader _ (ground (arith, me, e)) (f.leading me)
              | inr not_me ↦
                  let (low, free) = f.idle not_me in
                  IsFit-idle _ (ground (arith, not_me, e')) low free
            ])))

  pub oracle_message-IsFit :
      (c : LeadCalls) (received : Option (Datagram × ℕ)) (s : Proposer)
      → s.current_iid + preexec_win_size < u64_mod
      → (leader_is_me s ≡ true → s.p1_info.highest_open + 1 < u32_mod)
      → (leader_is_me s ≡ false → AllAdded c)
      → IsFit s
      → Succeeds IsFit (pro_handle_oracle_msg clock c received s)
  unfolding pro_handle_oracle_msg
  oracle_message-IsFit c received s bound ends added f = by_message (udp_read_next_message received)
    where
      by_message :
          (m : Option Body)
          → Succeeds IsFit (elim m [
            | some (leader_announce current_leader) ↦
                change_leader clock c current_leader s >>= λ s'.
                some (record s' { current_leader_id = current_leader })
            | _ ↦ some s
          ])
      by_message (some (leader_announce current_leader)) =
          Succeeds-bind (change_leader-IsFit c current_leader s bound ends added f)
            (λ s' g. succeeds g)
      by_message _ = succeeds f

  pub delivery-IsFit :
      (value : Value) (iid : ℕ) (s : Proposer)
      → iid ≡ s.current_iid
      → iid + 1 < u64_mod
      → (leader_is_me s ≡ true → iid ≤ s.p1_info.highest_open)
      → IsFit s
      → Succeeds IsFit (pro_deliver_callback clock value iid s)
  unfolding pro_deliver_callback
  delivery-IsFit value iid s e bound opened f = elim (Bool-cases (leader_is_me s)) [
    | inl me ↦
        rw (me, e)
          (Succeeds-bind
            (leader_deliver-Succeeds clock value s (rw e at (opened me)) (f.leading me))
            (λ s' (ids, g). succeeds (
              Leads-IsFit s _ me ids (
                Sound-at ((s.current_iid + 1) % u64_mod) s'.p1_info.highest_open
                  s'.p2_info.next_unused_iid s'.p1_info.pending_count s'.p1_info.ready_count
                  s'.p2_info.open_count (omega (arith, e, bound)) refl refl refl refl refl g))))
    | inr not_me ↦
        let (low, free) = f.idle not_me in
        rw not_me (succeeds (IsFit-idle _ not_me (omega (arith, bound)) free))
  ]
