-- ===== src/Proposer/Sound/Array.antt =====
-- The state array of a leader: the window of instances in use, and the counters of their states.
use libpaxos.Base.{
  ℕ, ◌+◌, ◌≤◌, ◌<◌, ◌≡◌, ◌⊎◌, inl, inr, refl, sym, ◌∙◌, true, false, Bool, ◌==◌, ==_iff, arith,
  update, Bool-cases, leb, is_some,
}
use libpaxos.Config.{u64_mod, proposer_array_size, preexec_win_size, p2_concurrency}
use libpaxos.Values.{Values}
use libpaxos.Values.Queue.{IsQueue}
use libpaxos.Proposer.{Proposer, Status, Instance, status_number, has_status, slot}
use libpaxos.Proposer.Leader.{opened_by_me}
use libpaxos.Proposer.Sound.Count.{count, one_if, count-update, count-le}

abbrev pub is_pending : Instance → Bool
is_pending ii = has_status ii Status.p1_pending

abbrev pub is_ready : Instance → Bool
is_ready ii = has_status ii Status.p1_ready

-- An instance whose accept request has been sent.
abbrev pub is_later : Instance → Bool
is_later ii = leb 3 (status_number ii.status)

abbrev pub IsUsed : Instance → Type 0
IsUsed ii = 0 < status_number ii.status

-- An instance in a slot: it is among those open, and below the next unused one exactly if it has
-- been given a value.
pub record InPlace (cur top next j : ℕ) (ii : Instance) : Type 0 where
  pub place : slot ii.iid ≡ j
  pub low : cur ≤ ii.iid
  pub high : ii.iid ≤ top
  pub begun : ii.iid < next → is_some ii.p2_value ≡ true
  pub unbegun : next ≤ ii.iid → (is_some ii.p2_value ≡ false) × (status_number ii.status ≤ 2)

-- The instances in use are those from the current one to the highest opened.
pub record Window (cur top next : ℕ) (state : ℕ → Instance) : Type 0 where
  pub starts : 1 ≤ cur
  pub low : cur ≤ next
  pub high : next ≤ top + 1
  pub narrow : top + 1 < cur + proposer_array_size
  pub bounded : top + 1 < u64_mod
  pub used : (j : ℕ) → IsUsed (state j) → InPlace cur top next j (state j)
  pub unused : (j : ℕ) → status_number (state j).status ≡ 0 → is_some (state j).p2_value ≡ false
  pub held : (i : ℕ) → cur ≤ i → i ≤ top → IsUsed (state (slot i)) × ((state (slot i)).iid ≡ i)

-- The counters, as numbers of instances: the one of those ready may be too high.
pub record Counts (pending ready opened : ℕ) (state : ℕ → Instance) : Type 0 where
  pub all_pending : pending ≡ count is_pending proposer_array_size state
  pub all_ready : count is_ready proposer_array_size state ≤ ready
  pub all_opened : opened ≡ count opened_by_me proposer_array_size state
  pub few :
      pending + ready + count is_later proposer_array_size state
      ≤ preexec_win_size + proposer_array_size

pub slot-lt : (i : ℕ) → slot i < proposer_array_size
slot-lt i = omega arith

module _ {pending ready opened : ℕ} {state : ℕ → Instance} where
  -- One slot is written, and the counters follow.
  pub Counts-write :
      (pending' ready' opened' i : ℕ) (ii : Instance)
      → pending' + one_if (is_pending (state (slot i))) ≡ pending + one_if (is_pending ii)
      → ready + one_if (is_ready ii) ≤ ready' + one_if (is_ready (state (slot i)))
      → opened' + one_if (opened_by_me (state (slot i))) ≡ opened + one_if (opened_by_me ii)
      → (pending' + ready' ≤ preexec_win_size)
        ⊎ (pending' + ready' + one_if (is_later ii)
            ≤ pending + ready + one_if (is_later (state (slot i))))
      → Counts pending ready opened state
      → Counts pending' ready' opened' (update state (slot i) ii)
  Counts-write pending' ready' opened' i ii p r o l c =
      let lt = slot-lt i in
      let n = proposer_array_size in
      let cp = count-update is_pending state n (slot i) ii lt in
      let cr = count-update is_ready state n (slot i) ii lt in
      let cl = count-update is_later state n (slot i) ii lt in
      let co = count-update opened_by_me state n (slot i) ii lt in
      let a = c.all_pending in
      let e = c.all_opened in
      let b = c.all_ready in
      let d = c.few in
      record {
        all_pending = omega (arith, cp, a, p);
        all_ready = omega (arith, cr, b, r);
        all_opened = omega (arith, co, e, o);
        few = elim l [
          | inl small ↦
              let most = count-le is_later (update state (slot i) ii) n in
              omega (arith, small, most)
          | inr same ↦ omega (arith, cl, d, same)
        ];
      }

module _ {cur top next : ℕ} {state : ℕ → Instance} where
  -- An instance in use changes, but neither its number nor whether it has a value.
  pub Window-keep :
      (i : ℕ) (ii : Instance)
      → IsUsed (state (slot i))
      → ii.iid ≡ (state (slot i)).iid
      → is_some ii.p2_value ≡ is_some (state (slot i)).p2_value
      → IsUsed ii
      → (next ≤ ii.iid → status_number ii.status ≤ 2)
      → Window cur top next state
      → Window cur top next (update state (slot i) ii)
  Window-keep i ii held e v u s w =
      let p = w.used (slot i) held in
      record {
        starts = w.starts;
        low = w.low;
        high = w.high;
        narrow = w.narrow;
        bounded = w.bounded;
        used = λ j. elim (Bool-cases (slot i == j)) [
          | inl same ↦
              let at : slot i ≡ j = (==_iff (slot i) j).0 same in
              rw (same, sym at)
                (λ h. record {
                  place = rw e p.place;
                  low = rw e p.low;
                  high = rw e p.high;
                  begun = λ b. v ∙ p.begun (omega (arith, e, b));
                  unbegun = λ b. (v ∙ (p.unbegun (omega (arith, e, b))).0, s b);
                })
          | inr other ↦ rw other (w.used j)
        ];
        unused = λ j. elim (Bool-cases (slot i == j)) [
          | inl same ↦ rw same (λ h. absurd (omega (arith, h, u)))
          | inr other ↦ rw other (w.unused j)
        ];
        held = λ k lo hi. elim (Bool-cases (slot i == slot k)) [
          | inl same ↦
              let at : slot i ≡ slot k = (==_iff (slot i) (slot k)).0 same in
              let there : (state (slot i)).iid ≡ k = rw (sym at) at (w.held k lo hi).1 in
              rw same (u, e ∙ there)
          | inr other ↦ rw other (w.held k lo hi)
        ];
      }

-- All that a leader keeps: the window, the counters and the list of pending values.
pub record Sound (cur top next pending ready opened : ℕ) (state : ℕ → Instance) (vh : Values)
    : Type 0 where
  pub window : Window cur top next state
  pub counts : Counts pending ready opened state
  pub queue : IsQueue vh
  pub few_open : opened ≤ p2_concurrency + 1

-- The same with the counters of a proposer, and with its bounds.
abbrev pub SoundIn : ℕ → ℕ → ℕ → Proposer → Type 0
SoundIn cur top next s =
    Sound cur top next s.p1_info.pending_count s.p1_info.ready_count s.p2_info.open_count
      s.proposer_state s.values

abbrev pub Bounds : ℕ → ℕ → ℕ → ℕ → ℕ → Proposer → Type 0
Bounds cur top unused id leader s =
    (s.current_iid ≡ cur)
    × (s.p1_info.highest_open ≡ top)
    × (s.p2_info.next_unused_iid ≡ unused)
    × (s.this_proposer_id ≡ id)
    × (s.current_leader_id ≡ leader)

-- The proposer's own number and that of the leader stay.
abbrev pub SameIds : Proposer → Proposer → Type 0
SameIds s s' =
    (s'.this_proposer_id ≡ s.this_proposer_id) × (s'.current_leader_id ≡ s.current_leader_id)

abbrev pub IsSound : Proposer → Type 0
IsSound s = SoundIn s.current_iid s.p1_info.highest_open s.p2_info.next_unused_iid s

-- The same numbers, written otherwise.
pub Sound-at :
    {cur top next pending ready opened : ℕ} {state : ℕ → Instance} {vh : Values}
    (cur' top' next' pending' ready' opened' : ℕ)
    → cur' ≡ cur
    → top' ≡ top
    → next' ≡ next
    → pending' ≡ pending
    → ready' ≡ ready
    → opened' ≡ opened
    → Sound cur top next pending ready opened state vh
    → Sound cur' top' next' pending' ready' opened' state vh
Sound-at cur' top' next' pending' ready' opened' a b c d e f g = rw (a, b, c, d, e, f) g

pub IsSound-at :
    (cur top next id leader : ℕ) (s : Proposer)
    → Bounds cur top next id leader s
    → SoundIn cur top next s
    → IsSound s
IsSound-at cur top next id leader s (a, b, c, _, _) g =
    Sound-at s.current_iid s.p1_info.highest_open s.p2_info.next_unused_iid s.p1_info.pending_count
      s.p1_info.ready_count s.p2_info.open_count a b c refl refl refl g
