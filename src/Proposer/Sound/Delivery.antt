-- ===== src/Proposer/Sound/Delivery.antt =====
-- lib/proposer_leader.c, the delivery of the current instance: it leaves the window, and new ones are
-- opened behind.
use libpaxos.Base.{
  ℕ, ◌+◌, ◌%◌, ◌≤◌, ◌<◌, ◌≡◌, ◌⊎◌, inl, inr, refl, true, ◌==◌, ==_iff, update, arith, not,
  Bool-cases, Option, some, none, if◌then◌else◌, bytes_eq,
}
use libpaxos.Config.{u64_mod, proposer_array_size, p2_concurrency}
use libpaxos.Values.{Value, Values, vh_notify_client}
use libpaxos.Values.Queue.{IsQueue, vh_push_back_value-IsQueue}
use libpaxos.Proposer.{
  TimeVal, Status, Instance, Proposer, status_number, has_status, slot, instance_of, sub32,
  pro_clear_instance_info,
}
use libpaxos.Proposer.Leader.{opened_by_me, count_delivery, settle_value, leader_deliver}
use libpaxos.Proposer.Accepts.Routines.{has_status_lem}
use libpaxos.Proposer.Sound.{Succeeds, Succeeds-map, Succeeds-if}
use libpaxos.Proposer.Sound.Count.{count-pos, count-le, one_if}
use libpaxos.Proposer.Sound.Array.{
  is_pending, Counts, Counts-write, SoundIn, SameIds, IsSound, slot-lt,
}
use libpaxos.Proposer.Sound.Changes.{Window-deliver}
use libpaxos.Proposer.Sound.New.{leader_open_instances_p2_new-Succeeds}

settle_value-IsQueue :
    (value : Value) (v : Option Value) (vh : Values)
    → IsQueue vh
    → IsQueue (settle_value value v vh)
unfolding settle_value vh_notify_client
settle_value-IsQueue value none vh q = q
settle_value-IsQueue value (some v) vh q = elim (Bool-cases (bytes_eq v value)) [
  | inl mine ↦ rw mine (record { counted = q.counted })
  | inr other ↦ rw other (vh_push_back_value-IsQueue v vh q)
]

module _ {cur next : ℕ} where
  -- Where the next unused instance is after the current one is delivered.
  next_moved :
      cur ≤ next
      → cur + 1 < u64_mod
      → let next' = if next == cur then (next + 1) % u64_mod else next in
        ((next ≡ cur) × (next' ≡ cur + 1)) ⊎ ((cur < next) × (next' ≡ next))
  next_moved lo bound = elim (Bool-cases (next == cur)) [
    | inl same ↦
        let e : next ≡ cur = (==_iff next cur).0 same in inl (e, rw same (omega (arith, e, bound)))
    | inr other ↦ inr (ground (arith, lo, other), rw other refl)
  ]

module _ {pending ready opened : ℕ} {state : ℕ → Instance} where
  -- The counter of pending instances, as the record of a slot is cleared.
  Counts-close :
      (opened' i : ℕ) (ii : Instance)
      → status_number ii.status ≡ 0
      → opened' + one_if (opened_by_me (state (slot i))) ≡ opened
      → Counts pending ready opened state
      → Counts
          (if has_status (state (slot i)) Status.p1_pending then sub32 pending 1 else pending)
          ready
          opened'
          (update state (slot i) ii)
  Counts-close opened' i ii free o c =
      elim (Bool-cases (has_status (state (slot i)) Status.p1_pending)) [
        | inl was ↦
            let st = has_status_lem (state (slot i)) Status.p1_pending was in
            let one = count-pos is_pending state proposer_array_size (slot i) (slot-lt i) was in
            let all = c.all_pending in
            let most = c.few in
            rw was (
              Counts-write (sub32 pending 1) ready opened' i ii
                (ground (arith, st, one, all, most, free)) (ground (arith, st, free))
                (ground (arith, o, free)) (inr (ground (arith, st, one, all, most, free))) c)
        | inr was_not ↦ rw was_not (
            Counts-write pending ready opened' i ii (ground (arith, was_not, free))
              (ground (arith, free)) (ground (arith, o, free)) (inr (ground (arith, free))) c)
      ]

  -- The same with the counter of those open.
  Counts-deliver :
      (i : ℕ) (ii : Instance)
      → status_number ii.status ≡ 0
      → Counts pending ready opened state
      → Counts
          (if has_status (state (slot i)) Status.p1_pending then sub32 pending 1 else pending)
          ready
          (if opened_by_me (state (slot i)) then sub32 opened 1 else opened)
          (update state (slot i) ii)
  Counts-deliver i ii free c =
      let n = proposer_array_size in
      let all = c.all_opened in
      let at_most = count-le opened_by_me state n in
      elim (Bool-cases (opened_by_me (state (slot i)))) [
        | inl mine ↦
            let one = count-pos opened_by_me state n (slot i) (slot-lt i) mine in
            rw mine (
              Counts-close (sub32 opened 1) i ii free (rw mine (omega (arith, one, all, at_most)))
                c)
        | inr not_mine ↦ rw not_mine (Counts-close opened i ii free (rw not_mine (omega arith)) c)
      ]

few_left :
    (ii : Instance) (opened : ℕ)
    → opened ≤ p2_concurrency + 1
    → (opened_by_me ii ≡ true → 1 ≤ opened)
    → (if opened_by_me ii then sub32 opened 1 else opened) ≤ p2_concurrency + 1
few_left ii opened few one = elim (Bool-cases (opened_by_me ii)) [
  | inl mine ↦ let some_open = one mine in rw mine (omega (arith, some_open, few))
  | inr not_mine ↦ rw not_mine few
]

module _ (clock : ℕ → TimeVal) where
  -- The proposer's `current_iid` is behind until the callback has returned.
  pub leader_deliver-Succeeds :
      (value : Value) (s : Proposer)
      → s.current_iid ≤ s.p1_info.highest_open
      → IsSound s
      → Succeeds
          (λ s'.
            SameIds s s'
            × SoundIn (s.current_iid + 1) s'.p1_info.highest_open s'.p2_info.next_unused_iid s')
          (leader_deliver clock value s.current_iid s)
  unfolding leader_deliver count_delivery pro_clear_instance_info
  leader_deliver-Succeeds value s fits g =
      let cur = s.current_iid in
      let top = s.p1_info.highest_open in
      let next = s.p2_info.next_unused_iid in
      let ii = instance_of s cur in
      let (_, number) = g.window.held cur (omega arith) fits in
      let same : (ii.iid == cur) ≡ true = (==_iff ii.iid cur).1 number in
      let bound = g.window.bounded in
      let next' = if next == cur then (next + 1) % u64_mod else next in
      Succeeds-if (not (ii.iid == cur)) (λ e. absurd (ground (arith, e, same)))
        (λ _.
          Succeeds-map
            (leader_open_instances_p2_new-Succeeds clock (cur + 1) top _ (record {
              window =
                  Window-deliver next' _ fits (next_moved g.window.low (omega (arith, bound, fits)))
                    refl refl g.window;
              counts = Counts-deliver cur _ refl g.counts;
              queue = settle_value-IsQueue value ii.p2_value s.values g.queue;
              few_open = few_left ii s.p2_info.open_count g.few_open (λ mine.
                  let one =
                    count-pos opened_by_me s.proposer_state proposer_array_size (slot cur)
                      (slot-lt cur) mine in
                  let all = g.counts.all_opened in omega (arith, one, all));
            }))
            (λ s' (a, b, ids, h). (ids, rw b h)))
