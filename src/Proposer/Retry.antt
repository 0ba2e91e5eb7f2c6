-- ===== src/Proposer/Retry.antt =====
-- lib/proposer_leader.c: the check of phase 1, over the whole window of instances.
use libpaxos.Base.{
  ℕ, zero, suc, ◌+◌, ◌≤◌, ◌<◌, ◌≡◌, ◌≢◌, refl, sym, ◌∙◌, true, false, ◌==◌, ==_iff, ==_refl, arith,
  inl, inr, Bool, Bool-cases, some, none, ◌&&◌, update,
}
use mathlib.Core.Path.{subst}
use libpaxos.Config.{proposer_array_size, p1_timeout_interval}
use libpaxos.Messages.{MsgCode}
use libpaxos.SendBuf.{SendBuf, sendbuf_clear}
use libpaxos.Proposer.{
  TimeVal, Status, Instance, Proposer, has_status, slot, instance_of, next_ballot, for_range, upto,
}
use libpaxos.Proposer.Timing.{leader_set_expiration, leader_is_expired}
use libpaxos.Proposer.Phase1.{
  start_batch, flush, restarted, send_prepare, check_p1_pending, leader_check_p1_pending,
}
use libpaxos.Proposer.Opening.{plus_zero, shift}
use libpaxos.Base.{List, [], ◌∷◌, ◌++◌, append-nil, append_assoc, ap, All, if◌then◌else◌}
use libpaxos.Messages.{Item}
use libpaxos.SendBuf.{sendbuf_add_prepare_req}
use libpaxos.SendBuf.Batches.{
  IsOpen, IsFit, packed, added, add_item_lem, sendbuf_clear-IsOpen, packed-sendbuf_flush,
  sendbuf_flush-fits,
}

-- The instance awaits promises, and its deadline has passed.
abbrev pub is_overdue : TimeVal → Instance → Bool
is_overdue now ii = has_status ii Status.p1_pending && leader_is_expired ii.timeout now

-- What the check makes of an instance: one that is overdue starts phase 1 again.
pub record IsChecked (now : TimeVal) (old new : Instance) : Type 0 where
  pub waits : is_overdue now old ≡ false → new ≡ old
  pub number : new.iid ≡ old.iid
  pub same_status : new.status ≡ old.status
  pub assigned : new.p2_value ≡ old.p2_value
  pub next : is_overdue now old ≡ true → new.my_ballot ≡ next_ballot old.my_ballot
  pub no_promises :
      is_overdue now old ≡ true → (new.promises_count ≡ 0) × (new.promises_bitvector ≡ 0)
  pub no_p1_value : is_overdue now old ≡ true → (new.p1_value ≡ none) × (new.p1_value_ballot ≡ 0)

-- The prepare requests of those that are overdue, among so many instances from the i-th.
abbrev pub due_requests : TimeVal → (ℕ → Instance) → ℕ → ℕ → List Item
due_requests now state zero i = []
due_requests now state (suc n) i =
    let rest = due_requests now state n (i + 1) in
    let ii = state (slot i) in
    if is_overdue now ii
    then Item.prepare_req (record { iid = ii.iid; ballot = next_ballot ii.my_ballot }) ∷ rest
    else rest

due_requests-same :
    (now : TimeVal) (old state : ℕ → Instance) (n i : ℕ)
    → ((k : ℕ) → k < n → state (slot (i + k)) ≡ old (slot (i + k)))
    → due_requests now state n i ≡ due_requests now old n i
due_requests-same now old state zero i h = refl
due_requests-same now old state (suc n) i h =
    let here = subst (λ m. state (slot m) ≡ old (slot m)) (plus_zero i) (h 0 (omega arith)) in
    let rest =
      due_requests-same now old state n (i + 1)
        (λ k b. rw (shift i k) (h (k + 1) (omega (arith, b)))) in
    rw (here, rest) refl

record Checks (now : TimeVal) (rounds i : ℕ) (old new : ℕ → Instance) : Type 0 where
  checked : (k : ℕ) → k < rounds → IsChecked now (old (slot (i + k))) (new (slot (i + k)))
  others : (j : ℕ) → ((k : ℕ) → k < rounds → slot (i + k) ≢ j) → new j ≡ old j

Checks-next :
    (now : TimeVal) (rounds i : ℕ) (old state new : ℕ → Instance)
    → suc rounds ≤ proposer_array_size
    → IsChecked now (old (slot i)) (state (slot i))
    → ((j : ℕ) → slot i ≢ j → state j ≡ old j)
    → Checks now rounds (i + 1) state new
    → Checks now (suc rounds) i old new
Checks-next now rounds i old state new small first same o = record {
  checked = at;
  others = λ j h.
      o.others j (λ k b. rw (shift i k) (h (k + 1) (omega (arith, b))))
      ∙ same j (subst (λ n. slot n ≢ j) (plus_zero i) (h 0 (omega arith)));
}
  where
    at : (k : ℕ) → k < suc rounds → IsChecked now (old (slot (i + k))) (new (slot (i + k)))
    at zero h =
        let untouched : new (slot i) ≡ state (slot i) =
          o.others (slot i) (λ k b q. omega (arith, b, small, q)) in
        rw (plus_zero i, untouched) first
    at (suc k) h =
        let e : i + suc k ≡ i + 1 + k = omega arith in
        let apart : slot i ≢ slot (i + 1 + k) = λ q. omega (arith, h, small, q) in
        rw (e, sym (same (slot (i + 1 + k)) apart)) (o.checked k (omega (arith, h)))

module _ (clock : ℕ → TimeVal) (now : TimeVal) where
  requests-step :
      (now : TimeVal) (old : ℕ → Instance) (n i : ℕ) (before mid after : List Item)
      → mid ≡ before ++ due_requests now old 1 i
      → after ≡ mid ++ due_requests now old n (i + 1)
      → after ≡ before ++ due_requests now old (suc n) i
  requests-step now old n i before mid after e e' =
      elim (Bool-cases (is_overdue now (old (slot i)))) [
        | inl due ↦
            e'
            ∙ rw due (
                rw due at (ap (λ l. l ++ due_requests now old n (i + 1)) e)
                ∙ append_assoc before _ _)
        | inr waits ↦
            e'
            ∙ rw waits
                (rw (waits, append-nil before) at (ap (λ l. l ++ due_requests now old n (i + 1)) e))
      ]

  abbrev left : Proposer → SendBuf → (ℕ → Instance) → ℕ → ℕ → Proposer
  left s sb state r n = record s {
    to_acceptors = sb;
    proposer_state = state;
    readings = r;
    lead_counters = record s.lead_counters { p1_timeout = n };
  }

  check_one :
      (i : ℕ) (s : Proposer)
      → IsOpen MsgCode.prepare_reqs s.to_acceptors
      → (instance_of s i).iid ≡ i
      → (sb : SendBuf) × (state : ℕ → Instance) × (r : ℕ) × (n : ℕ) × (check_p1_pending clock now i
            s
          ≡ some (left s sb state r n))
        × IsOpen MsgCode.prepare_reqs sb
        × (added sb ≡ added s.to_acceptors ++ due_requests now s.proposer_state 1 i)
        × IsChecked now (instance_of s i) (state (slot i))
        × ((j : ℕ) → slot i ≢ j → state j ≡ s.proposer_state j)
  unfolding check_p1_pending send_prepare leader_set_expiration sendbuf_add_prepare_req
  check_one i s c e =
      let old = instance_of s i in
      let this : (old.iid == i) ≡ true = (==_iff old.iid i).1 e in
      elim (Bool-cases (is_overdue now old)) [
        | inr waits ↦ (
          s.to_acceptors,
          s.proposer_state,
          s.readings,
          s.lead_counters.p1_timeout,
          rw (this, waits) refl,
          c,
          rw waits (sym (append-nil (added s.to_acceptors))),
          record {
            waits = λ _. refl;
            number = refl;
            same_status = refl;
            assigned = refl;
            next = λ h. absurd (let q : true ≡ false = sym h ∙ waits in cc);
            no_promises = λ h. absurd (let q : true ≡ false = sym h ∙ waits in cc);
            no_p1_value = λ h. absurd (let q : true ≡ false = sym h ∙ waits in cc);
          },
          λ j n. refl,
        )
        | inl due ↦
            let it =
              Item.prepare_req (record { iid = old.iid; ballot = next_ballot old.my_ballot }) in
            let (sb, a, c', q) =
              add_item_lem MsgCode.prepare_reqs s.to_acceptors.sender s.to_acceptors it
                (omega arith) c in
            let ii : Instance =
              leader_set_expiration (clock s.readings) (restarted clock old) p1_timeout_interval in
            (
              sb,
              update s.proposer_state (slot i) ii,
              s.readings + 1,
              s.lead_counters.p1_timeout + 1,
              rw (this, due, a) refl,
              c',
              rw due q,
              rw (==_refl (slot i)) (record {
                waits = λ h. absurd (let q : true ≡ false = sym due ∙ h in cc);
                number = refl;
                same_status = refl;
                assigned = refl;
                next = λ _. refl;
                no_promises = λ _. (refl, refl);
                no_p1_value = λ _. (refl, refl);
              }),
              λ j n. elim (Bool-cases (slot i == j)) [
                | inl same ↦ absurd (n ((==_iff (slot i) j).0 same))
                | inr other ↦ rw other refl
              ],
            )
      ]

  check_all :
      (rounds i : ℕ) (s : Proposer)
      → rounds ≤ proposer_array_size
      → IsOpen MsgCode.prepare_reqs s.to_acceptors
      → ((k : ℕ) → k < rounds → (instance_of s (i + k)).iid ≡ i + k)
      → (sb : SendBuf) × (state : ℕ → Instance) × (r : ℕ) × (n : ℕ) × (for_range
            (check_p1_pending clock now)
            rounds
            i
            s
          ≡ some (left s sb state r n))
        × Checks now rounds i s.proposer_state state
        × IsOpen MsgCode.prepare_reqs sb
        × (added sb ≡ added s.to_acceptors ++ due_requests now s.proposer_state rounds i)
  unfolding for_range
  check_all zero i s small c numbers = (
    s.to_acceptors,
    s.proposer_state,
    s.readings,
    s.lead_counters.p1_timeout,
    refl,
    record { checked = λ k h. absurd (omega (arith, h)); others = λ j h. refl },
    c,
    sym (append-nil (added s.to_acceptors)),
  )
  check_all (suc rounds) i s small c numbers =
      let (sb, state, r, n, e, c', q, first, same) =
        check_one i s c
          (subst (λ m. (instance_of s m).iid ≡ m) (plus_zero i) (numbers 0 (omega arith))) in
      let apart : (k : ℕ) → k < rounds → slot i ≢ slot (i + 1 + k) =
        λ k h q. omega (arith, h, small, q) in
      let (sb', state', r', n', e', o, c'', q') =
        check_all rounds (i + 1) (left s sb state r n) (omega (arith, small)) c' (λ k h.
          rw (same (slot (i + 1 + k)) (apart k h))
            (rw (shift i k) (numbers (k + 1) (omega (arith, h))))) in
      (
        sb',
        state',
        r',
        n',
        rw e e',
        Checks-next now rounds i s.proposer_state state state' small first same o,
        c'',
        (let later =
              due_requests-same now s.proposer_state state rounds (i + 1)
                (λ k h. same (slot (i + 1 + k)) (apart k h)) in
            requests-step now s.proposer_state rounds i (added s.to_acceptors) (added sb)
              (added sb') q (rw later at q')),
      )

-- Where each instance from the current one to the highest opened has its number, and these fit the
-- array, no assertion of the check of phase 1 fails: of these instances, those that await promises
-- behind their deadline start again with the next ballot, without promises and the value found so
-- far, and keep the value assigned to them; the others stay as they are. One prepare request for
-- each of the former, with its new ballot, is sent, in order and in datagrams within the size limit,
-- and nothing else.
pub leader_check_p1_pending_lem :
    (clock : ℕ → TimeVal) (s : Proposer)
    → upto s.current_iid s.p1_info.highest_open ≤ proposer_array_size
    → ((k : ℕ)
        → k < upto s.current_iid s.p1_info.highest_open
        → (instance_of s (s.current_iid + k)).iid ≡ s.current_iid + k)
    → All IsFit s.to_acceptors.sent
    → (s' : Proposer) × (leader_check_p1_pending clock s ≡ some s')
      × ((k : ℕ)
          → k < upto s.current_iid s.p1_info.highest_open
          → IsChecked
              (clock s.readings)
              (instance_of s (s.current_iid + k))
              (instance_of s' (s.current_iid + k)))
      × (packed s'.to_acceptors.sent
          ≡ packed s.to_acceptors.sent
            ++ due_requests
                (clock s.readings)
                s.proposer_state
                (upto s.current_iid s.p1_info.highest_open)
                s.current_iid)
      × All IsFit s'.to_acceptors.sent
unfolding leader_check_p1_pending sendbuf_clear
leader_check_p1_pending_lem clock s small numbers fit =
    let rounds = upto s.current_iid s.p1_info.highest_open in
    let s0 = record (start_batch MsgCode.prepare_reqs s) { readings = s.readings + 1 } in
    let open_buffer =
      sendbuf_clear-IsOpen MsgCode.prepare_reqs MsgCode.prepare_reqs s.this_proposer_id
        s.to_acceptors refl fit in
    let (sb, state, r, n, e, o, c, q) =
      check_all clock (clock s.readings) rounds s.current_iid s0 small open_buffer numbers in
    (
      flush (left clock (clock s.readings) s0 sb state r n),
      rw e refl,
      o.checked,
      packed-sendbuf_flush sb c ∙ (rw (append-nil (packed s.to_acceptors.sent)) at q),
      sendbuf_flush-fits sb c,
    )
