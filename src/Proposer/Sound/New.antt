-- ===== src/Proposer/Sound/New.antt =====
-- lib/proposer_leader.c, phase 2: new instances are opened for the pending values, and those that
-- time out go back to phase 1.
use libpaxos.Base.{
  ℕ, zero, suc, ◌+◌, ◌-◌, ◌%◌, ◌≤◌, ◌≡◌, inl, inr, refl, ◌∙◌, true, false, ◌==◌, ==_iff, arith, ltb,
  ◌&&◌, ◌||◌, not, Bool-cases, is_some,
}
use libpaxos.Config.{u64_mod, proposer_array_size, preexec_win_size, p2_concurrency}
use libpaxos.Messages.{MsgCode}
use libpaxos.SendBuf.{sendbuf_clear}
use libpaxos.Proposer.{
  TimeVal, Status, Instance, Proposer, status_number, has_status, slot, instance_of, sub32, add32,
}
use libpaxos.Proposer.Timing.{leader_set_expiration}
use libpaxos.Proposer.Phase1.{start_batch}
use libpaxos.Proposer.Phase2.{
  leader_execute_p2, open_p2_new, leader_open_instances_p2_new, threshold,
}
use libpaxos.Proposer.Leader.{opened_by_me}
use libpaxos.Proposer.Accepts.Routines.{has_status_lem}
use libpaxos.Proposer.Sound.{Succeeds, succeeds, Succeeds-bind, Succeeds-if, Succeeds-assert}
use libpaxos.Proposer.Sound.Count.{count-pos, count-le}
use libpaxos.Proposer.Sound.Array.{
  is_ready, Window, Counts-write, Sound, SameIds, SoundIn, slot-lt, Sound-at,
}
use libpaxos.Proposer.Sound.Changes.{Window-assign, next_slot_free}
use libpaxos.Proposer.Sound.Second.{CollectsAccepts, HasValue, leader_execute_p2-Succeeds}

-- The next unused instance has no value, whether it is open or not.
next-no_value :
    {cur top next : ℕ} {state : ℕ → Instance}
    → Window cur top next state
    → is_some (state (slot next)).p2_value ≡ false
next-no_value {cur} {top} {next} {state} w = elim (Bool-cases (ltb top next)) [
  | inl beyond ↦
      let hi = w.high in
      let narrow = w.narrow in
      w.unused (slot next)
        (next_slot_free next (ground (arith, beyond)) (omega (arith, hi, narrow)) w)
  | inr inside ↦
      let (held, number) = w.held next w.low (ground (arith, inside)) in
      ((w.used (slot next) held).unbegun (omega (arith, number))).0
]

-- A ready instance that has the number is in the window.
next-in :
    {cur top next : ℕ} {state : ℕ → Instance}
    → Window cur top next state
    → status_number (state (slot next)).status ≡ 2
    → (state (slot next)).iid ≡ next
    → next ≤ top
next-in {cur} {top} {next} {state} w st number =
    let high = (w.used (slot next) (omega (arith, st))).high in omega (arith, high, number)

module _ (clock : ℕ → TimeVal) (cur top current highest id leader opened : ℕ) where
  -- What the rounds keep: `ready` instances are left, and the counter still has the others. The
  -- proposer's own bounds do not matter.
  abbrev pub Assigning : ℕ → Proposer → Type 0
  Assigning count s =
      (s.current_iid ≡ current)
      × (s.p1_info.highest_open ≡ highest)
      × (s.this_proposer_id ≡ id)
      × (s.current_leader_id ≡ leader)
      × (s.p2_info.open_count ≡ opened)
      × CollectsAccepts s.to_acceptors
      × ((ready : ℕ) × (ready + count ≡ s.p1_info.ready_count)
          × (s.p1_info.ready_count ≤ preexec_win_size + proposer_array_size)
          × Sound cur top s.p2_info.next_unused_iid s.p1_info.pending_count ready
              (s.p2_info.open_count + count) s.proposer_state s.values)

  -- The next instance is ready, and takes a value.
  assign_next :
      (count : ℕ) (s : Proposer)
      → has_status (instance_of s s.p2_info.next_unused_iid) Status.p1_ready ≡ true
      → (instance_of s s.p2_info.next_unused_iid).iid ≡ s.p2_info.next_unused_iid
      → HasValue (instance_of s s.p2_info.next_unused_iid) s.values
      → opened + count ≤ p2_concurrency
      → Assigning count s
      → Succeeds
          (λ s'. Assigning (count + 1) (record s' {
            p2_info = record s'.p2_info {
              next_unused_iid = (s'.p2_info.next_unused_iid + 1) % u64_mod;
            };
          }))
          (leader_execute_p2 clock s.p2_info.next_unused_iid s)
  unfolding leader_set_expiration
  assign_next count s is_ready_one number value room (a, b, d, e, o, c, (ready, sum, small, g)) =
      let next = s.p2_info.next_unused_iid in
      let st = has_status_lem (instance_of s next) Status.p1_ready is_ready_one in
      let fits = next-in g.window st number in
      let some_ready =
        count-pos is_ready s.proposer_state proposer_array_size (slot next) (slot-lt next)
          is_ready_one in
      let all = g.counts.all_ready in
      let bound = g.window.bounded in
      let none_yet = next-no_value g.window in
      leader_execute_p2-Succeeds clock _ next s c g.queue value (λ v ii' vh has same q c'. (
        a,
        b,
        d,
        e,
        o,
        c',
        (
          ready - 1,
          omega (arith, sum, some_ready, all),
          small,
          Sound-at cur top ((next + 1) % u64_mod) s.p1_info.pending_count (ready - 1)
              (s.p2_info.open_count + (count + 1)) refl refl (omega (arith, fits, bound)) refl refl
              refl
              (record {
                window = Window-assign _ fits (same ∙ number) (omega arith) has g.window;
                counts =
                    Counts-write s.p1_info.pending_count (ready - 1)
                      (s.p2_info.open_count + (count + 1)) next _ (ground (arith, st))
                      (ground (arith, st, some_ready, all)) (ground (arith, st, none_yet))
                      (inr (ground (arith, st, some_ready, all))) g.counts;
                queue = q;
                few_open = omega (arith, o, room);
              }),
        ),
      ))

  open_p2_new-Succeeds :
      (rounds count : ℕ) (s : Proposer)
      → opened + count + rounds ≤ p2_concurrency + 1
      → Assigning count s
      → Succeeds (λ r. Assigning r.0 r.1) (open_p2_new clock rounds count s)
  unfolding open_p2_new
  open_p2_new-Succeeds zero count s room h = succeeds h
  open_p2_new-Succeeds (suc rounds) count s room h =
      let next = s.p2_info.next_unused_iid in
      let ii = instance_of s next in
      let none_yet : is_some ii.p2_value ≡ false = next-no_value h.6.3.window in
      Succeeds-assert (not (is_some ii.p2_value)) (rw none_yet refl) (
        Succeeds-if (not (is_some ii.p1_value) && (s.values.vh_list_size == 0)) (λ _. succeeds h)
          (λ some_value.
            Succeeds-if (not (has_status ii Status.p1_ready) || not (ii.iid == next))
              (λ _. succeeds h)
              (λ usable.
                let test : has_status ii Status.p1_ready ≡ true = ground arith in
                let same : (ii.iid == next) ≡ true = ground arith in
                Succeeds-bind
                  (assign_next count s test ((==_iff ii.iid next).0 same) (inr some_value)
                    (omega (arith, room)) h)
                  (λ s' h'. open_p2_new-Succeeds rounds (count + 1) _ (omega (arith, room)) h'))))

module _ (clock : ℕ → TimeVal) (cur top : ℕ) where
  -- The proposer's own bounds need not be those of the window, but for the next unused instance.
  pub leader_open_instances_p2_new-Succeeds :
      (s : Proposer)
      → SoundIn cur top s.p2_info.next_unused_iid s
      → Succeeds
          (λ s'.
            (s'.current_iid ≡ s.current_iid)
            × (s'.p1_info.highest_open ≡ s.p1_info.highest_open)
            × SameIds s s'
            × SoundIn cur top s'.p2_info.next_unused_iid s')
          (leader_open_instances_p2_new clock s)
  unfolding leader_open_instances_p2_new sendbuf_clear
  leader_open_instances_p2_new-Succeeds s g =
      let most = g.counts.few in
      let few = g.few_open in
      Succeeds-if (ltb threshold s.p2_info.open_count) (λ _. succeeds (refl, refl, (refl, refl), g))
        (λ _.
          Succeeds-bind
            (open_p2_new-Succeeds clock cur top s.current_iid s.p1_info.highest_open
              s.this_proposer_id s.current_leader_id s.p2_info.open_count
              (p2_concurrency + 1 - s.p2_info.open_count) 0 (start_batch MsgCode.accept_reqs s)
              (omega (arith, few))
              (
                refl,
                refl,
                refl,
                refl,
                refl,
                refl,
                (
                  s.p1_info.ready_count,
                  omega arith,
                  omega (arith, most),
                  Sound-at cur top s.p2_info.next_unused_iid s.p1_info.pending_count
                      s.p1_info.ready_count (s.p2_info.open_count + 0) refl refl refl refl refl
                      (omega arith) g,
                ),
              ))
            (λ r (a, b, d, e, _, _, (ready, sum, small, g')).
              let all = g'.counts.all_opened in
              let at_most = count-le opened_by_me r.1.proposer_state proposer_array_size in
              succeeds (
                a,
                b,
                (d, e),
                Sound-at cur top r.1.p2_info.next_unused_iid r.1.p1_info.pending_count
                    (sub32 r.1.p1_info.ready_count r.0) (add32 r.1.p2_info.open_count r.0) refl refl
                    refl refl (omega (arith, sum, small)) (omega (arith, all, at_most)) g',
              )))
