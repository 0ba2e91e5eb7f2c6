-- ===== src/Proposer/Sound/Change.antt =====
-- lib/proposer.c, lib/proposer_leader.c: a change of leader, by a promotion or a step down.
use libpaxos.Base.{
  ℕ, zero, suc, ◌+◌, ◌-◌, ◌%◌, ◌≤◌, ◌<◌, ◌≡◌, ◌⊎◌, inl, inr, refl, false, Bool, ◌==◌, arith,
  Bool-cases, Option-cases, is_some,
}
use libpaxos.Config.{u32_mod, u64_mod, proposer_array_size, preexec_win_size}
use libpaxos.Values.{vh_init, vh_push_back_value}
use libpaxos.Values.Queue.{IsQueue, vh_push_back_value-IsQueue, vh_shutdown_lem}
use libpaxos.Proposer.{
  TimeVal, Status, Instance, Phase1Info, Proposer, status_number, has_status, slot, instance_of,
  set_instance, upto, pro_clear_instance_info,
}
use libpaxos.Proposer.Reign.{shutdown_loop-for_range}
use libpaxos.Proposer.Leader.{opened_by_me, abandon, leader_shutdown, start_leading, no_events}
use libpaxos.Proposer.Sound.{Succeeds, succeeds, Succeeds-bind, Succeeds-if, for_range-Succeeds}
use libpaxos.Proposer.Sound.Count.{count, count-le}
use libpaxos.Proposer.Sound.Array.{
  is_pending, is_ready, is_later, IsUsed, Window, Counts, SameIds, IsSound, Sound-at,
}
use libpaxos.Proposer.Sound.Ahead.{p1_round-Succeeds}

-- A record that is not in use.
abbrev pub IsFree : Instance → Type 0
IsFree ii = (status_number ii.status ≡ 0) × (is_some ii.p2_value ≡ false)

abbrev pub AllFree : Proposer → Type 0
AllFree s = (j : ℕ) → IsFree (s.proposer_state j)

free_or_IsUsed : (ii : Instance) → (status_number ii.status ≡ 0) ⊎ IsUsed ii
free_or_IsUsed ii = ground arith

-- What a step down keeps: the records in use are those of the instances that are left.
record Leaving (id cur top i : ℕ) (s : Proposer) : Type 0 where
  queue : IsQueue s.values
  same_id : s.this_proposer_id ≡ id
  same_current : s.current_iid ≡ cur
  left :
      (j : ℕ)
      → IsFree (s.proposer_state j)
        ⊎ ((slot (s.proposer_state j).iid ≡ j)
            × (i ≤ (s.proposer_state j).iid)
            × ((s.proposer_state j).iid ≤ top))

module _ (id cur top : ℕ) where
  abandon-Succeeds :
      (i : ℕ) (s : Proposer)
      → i < top + 1
      → Leaving id cur top i s
      → Succeeds (Leaving id cur top (i + 1)) (abandon i s)
  unfolding abandon pro_clear_instance_info
  abandon-Succeeds i s b l = elim (Option-cases (instance_of s i).p2_value) [
    | inl e ↦ rw (e, abandon) (succeeds (emptied s.values l.queue))
    | inr (v, e) ↦
        rw (e, abandon)
          (Succeeds-if (has_status (instance_of s i) Status.p2_completed)
            (λ _. succeeds (emptied s.values l.queue))
            (λ _. succeeds (
              emptied (vh_push_back_value v s.values)
                (vh_push_back_value-IsQueue v s.values l.queue))))
  ]
    where
      emptied :
          (vh : _)
          → IsQueue vh
          → Leaving id cur top
              (i + 1)
              (record (set_instance s i (pro_clear_instance_info (instance_of s i))) {
                values = vh;
              })
      emptied vh q = record {
        queue = q;
        same_id = l.same_id;
        same_current = l.same_current;
        left = λ j. elim (Bool-cases (slot i == j)) [
          | inl same ↦ rw same (inl (refl, refl))
          | inr other ↦ rw other (elim (l.left j) [
            | inl free ↦ inl free
            | inr (place, low, high) ↦ inr (place, ground (arith, place, low, other), high)
          ])
        ];
      }

-- A step down succeeds, and no record is in use behind it.
pub leader_shutdown-Succeeds :
    (s : Proposer)
    → IsSound s
    → s.p1_info.highest_open + 1 < u32_mod
    → Succeeds
        (λ s'.
          (s'.this_proposer_id ≡ s.this_proposer_id)
          × (s'.current_iid ≡ s.current_iid)
          × AllFree s')
        (leader_shutdown s)
unfolding leader_shutdown
leader_shutdown-Succeeds s g small =
    let cur = s.current_iid in
    let top = s.p1_info.highest_open in
    let w = g.window in
    let lo = w.low in
    let hi = w.high in
    let below : cur < u32_mod = omega (arith, lo, hi, small) in
    let truncated : cur % u32_mod ≡ cur = omega (arith, below) in
    let loop = shutdown_loop-for_range top (upto cur top) cur s small below refl in
    rw (truncated, loop)
      (Succeeds-bind
        (for_range-Succeeds (Leaving s.this_proposer_id cur top) abandon (top + 1)
          (abandon-Succeeds s.this_proposer_id cur top) (upto cur top) cur s (omega (arith, lo, hi))
          (record {
            queue = g.queue;
            same_id = refl;
            same_current = refl;
            left = λ j. elim (free_or_IsUsed (s.proposer_state j)) [
              | inl free ↦ inl (free, w.unused j free)
              | inr held ↦ let p = w.used j held in inr (p.place, p.low, p.high)
            ];
          }))
        (λ s' l. rw (vh_shutdown_lem s'.values l.queue) (
          succeeds (
            l.same_id,
            l.same_current,
            λ j. elim (l.left j) [
              | inl free ↦ free
              | inr (_, low, high) ↦ absurd (omega (arith, low, high, lo, hi))
            ],
          ))))

count-none :
    (kind : Instance → Bool) (state : ℕ → Instance)
    → ((j : ℕ) → kind (state j) ≡ false)
    → (n : ℕ) → count kind n state ≡ 0
unfolding count
count-none kind state h zero = refl
count-none kind state h (suc n) = rw (count-none kind state h n, h n) refl

module _ {state : ℕ → Instance} (free : (j : ℕ) → IsFree (state j)) where
  -- No instance is open.
  Window-none : (cur : ℕ) → 1 ≤ cur → cur < u64_mod → Window cur (cur - 1) cur state
  Window-none cur low bound = record {
    starts = low;
    low = omega arith;
    high = omega arith;
    narrow = omega (arith, low);
    bounded = omega (arith, low, bound);
    used = λ j h. let none_held = (free j).0 in absurd (omega (arith, h, none_held));
    unused = λ j _. (free j).1;
    held = λ i from to. absurd (omega (arith, from, to, low));
  }

  Counts-none : Counts 0 0 0 state
  Counts-none =
      let n = proposer_array_size in
      let none_pending = count-none is_pending state (λ j. let f = (free j).0 in ground arith) n in
      let none_ready = count-none is_ready state (λ j. let f = (free j).0 in ground arith) n in
      let none_opened = count-none opened_by_me state (λ j. let f = (free j).0 in ground arith) n in
      let most = count-le is_later state n in
      record {
        all_pending = omega (arith, none_pending);
        all_ready = omega (arith, none_ready);
        all_opened = omega (arith, none_opened);
        few = omega (arith, most);
      }

module _ (clock : ℕ → TimeVal) where
  -- A promotion succeeds where no record is in use.
  pub start_leading-Succeeds :
      (s : Proposer)
      → 1 ≤ s.current_iid
      → s.current_iid + preexec_win_size < u64_mod
      → AllFree s
      → Succeeds
          (λ s'. (s'.current_iid ≡ s.current_iid) × SameIds s s' × IsSound s')
          (start_leading clock s)
  unfolding start_leading vh_init
  start_leading-Succeeds s low bound free =
      let cur = s.current_iid in
      let start = (cur + u64_mod - 1) % u64_mod in
      let at : start ≡ cur - 1 = omega (arith, low, bound) in
      let p1 : Phase1Info = record { pending_count = 0; ready_count = 0; highest_open = start } in
      let s0 = record s { lead_counters = no_events; values = vh_init s.values; p1_info = p1 } in
      Succeeds-bind
        (p1_round-Succeeds clock cur 0 s0 (omega (arith, at, low)) (omega (arith, at, low, bound)) (
          Sound-at cur start cur 0 0 0 refl at refl refl refl refl (record {
            window = Window-none free cur low (omega (arith, bound));
            counts = Counts-none free;
            queue = record { counted = refl };
            few_open = omega arith;
          })))
        (λ s' (a, _, ids, h). succeeds (
          a,
          ids,
          Sound-at s'.current_iid s'.p1_info.highest_open s'.current_iid s'.p1_info.pending_count
              s'.p1_info.ready_count 0 a refl a refl refl refl h,
        ))
