-- ===== src/Proposer/Opening.antt =====
-- lib/proposer_leader.c: the loop that opens instances for phase 1.
use libpaxos.Base.{
  ℕ, zero, suc, ◌+◌, ◌≤◌, ◌<◌, ◌≡◌, ◌≢◌, refl, ◌∙◌, true, ◌==◌, ==_iff, ==_refl, arith, update, inl,
  inr, Bool-cases, some, none,
}
use mathlib.Core.Path.{subst}
use libpaxos.Config.{proposer_array_size, p1_timeout_interval}
use libpaxos.Messages.{MsgCode, code, Item}
use libpaxos.SendBuf.{
  SendBuf, sendbuf_clear, is_full, make_room, append_item, add_item, sendbuf_add_prepare_req,
}
use libpaxos.Proposer.{
  TimeVal, Status, Instance, Proposer, slot, instance_of, for_range, first_ballot,
}
use libpaxos.Proposer.Timing.{leader_set_expiration}
use libpaxos.Proposer.Phase1.{send_prepare, open_p1}
use libpaxos.Proposer.Reign.{IsClear}

-- The buffer collects prepare requests.
abbrev pub Collects : SendBuf → Type 0
Collects sb = (code sb.type == code MsgCode.prepare_reqs) ≡ true

pub make_room-type :
    (sender : ℕ) (sb : SendBuf) (size : ℕ) → (make_room sender sb size).type ≡ sb.type
unfolding make_room sendbuf_clear
make_room-type sender sb size = elim (Bool-cases (is_full sb size)) [
  | inl e ↦ rw e refl
  | inr e ↦ rw e refl
]

pub add-returns :
    (sb : SendBuf) (iid ballot : ℕ)
    → Collects sb
    → (sb' : SendBuf) × (sendbuf_add_prepare_req sb iid ballot ≡ some sb') × Collects sb'
unfolding sendbuf_add_prepare_req add_item append_item
add-returns sb iid ballot c =
    let it = Item.prepare_req (record { iid = iid; ballot = ballot }) in
    (append_item (make_room sb.sender sb 16) it, rw c refl, rw (make_room-type sb.sender sb 16) c)

-- Phase 1 of an instance has been started with the first ballot.
pub record IsStarted (id iid : ℕ) (ii : Instance) : Type 0 where
  pub number : ii.iid ≡ iid
  pub pending : ii.status ≡ Status.p1_pending
  pub ballot : ii.my_ballot ≡ first_ballot id
  pub no_bits : ii.promises_bitvector ≡ 0
  pub no_promises : ii.promises_count ≡ 0
  pub no_p1_ballot : ii.p1_value_ballot ≡ 0
  pub no_p1_value : ii.p1_value ≡ none
  pub no_p2_value : ii.p2_value ≡ none

-- The state array behind the loop: `rounds` instances from `i` are open, and the slots of the
-- others are as before.
pub record Opens (id rounds i : ℕ) (old new : ℕ → Instance) : Type 0 where
  pub opened : (k : ℕ) → k < rounds → IsStarted id (i + k) (new (slot (i + k)))
  pub others : (j : ℕ) → ((k : ℕ) → k < rounds → slot (i + k) ≢ j) → new j ≡ old j

pub plus_zero : (i : ℕ) → i + 0 ≡ i
plus_zero i = omega arith

pub shift : (i k : ℕ) → i + 1 + k ≡ i + (k + 1)
shift i k = omega arith

-- One instance more in front.
Opens-next :
    (id rounds i : ℕ) (old state new : ℕ → Instance)
    → suc rounds ≤ proposer_array_size
    → IsStarted id i (state (slot i))
    → ((j : ℕ) → slot i ≢ j → state j ≡ old j)
    → Opens id rounds (i + 1) state new
    → Opens id (suc rounds) i old new
Opens-next id rounds i old state new small first same o = record {
  opened = at;
  others = λ j h.
      o.others j (λ k b. rw (shift i k) (h (k + 1) (omega (arith, b))))
      ∙ same j (subst (λ n. slot n ≢ j) (plus_zero i) (h 0 (omega arith)));
}
  where
    at : (k : ℕ) → k < suc rounds → IsStarted id (i + k) (new (slot (i + k)))
    at zero h =
        let untouched : new (slot i) ≡ state (slot i) =
          o.others (slot i) (λ k b q. omega (arith, b, small, q)) in
        rw (plus_zero i, untouched) first
    at (suc k) h =
        let e : i + suc k ≡ i + 1 + k = omega arith in rw e (o.opened k (omega (arith, h)))

module _ (clock : ℕ → TimeVal) where
  abbrev rest : Proposer → SendBuf → (ℕ → Instance) → ℕ → Proposer
  rest s sb state r = record s { to_acceptors = sb; proposer_state = state; readings = r }

  open_one :
      (i : ℕ) (s : Proposer)
      → Collects s.to_acceptors
      → IsClear (instance_of s i)
      → (sb : SendBuf) × (state : ℕ → Instance) × (r : ℕ) × (open_p1 clock i s
          ≡ some (rest s sb state r))
        × Collects sb
        × IsStarted s.this_proposer_id i (state (slot i))
        × ((j : ℕ) → slot i ≢ j → state j ≡ s.proposer_state j)
  unfolding open_p1 send_prepare leader_set_expiration
  open_one i s c free =
      let id = s.this_proposer_id in
      let (sb, e, c') = add-returns s.to_acceptors i (first_ballot id) c in
      let ii : Instance =
        leader_set_expiration (clock s.readings)
          (record (instance_of s i) {
            iid = i;
            status = Status.p1_pending;
            my_ballot = first_ballot id;
          })
          p1_timeout_interval in
      (
        sb,
        update s.proposer_state (slot i) ii,
        s.readings + 1,
        rw (free.is_empty, e) refl,
        c',
        rw (==_refl (slot i)) (record {
          number = refl;
          pending = refl;
          ballot = refl;
          no_bits = free.no_bits;
          no_promises = free.no_promises;
          no_p1_ballot = free.no_p1_ballot;
          no_p1_value = free.no_p1_value;
          no_p2_value = free.no_p2_value;
        }),
        λ j n. elim (Bool-cases (slot i == j)) [
          | inl same ↦ absurd (n ((==_iff (slot i) j).0 same))
          | inr other ↦ rw other refl
        ],
      )

  pub open_all :
      (rounds i : ℕ) (s : Proposer)
      → rounds ≤ proposer_array_size
      → Collects s.to_acceptors
      → ((k : ℕ) → k < rounds → IsClear (instance_of s (i + k)))
      → (sb : SendBuf) × (state : ℕ → Instance) × (r : ℕ) × (for_range (open_p1 clock) rounds i s
          ≡ some (rest s sb state r))
        × Collects sb
        × Opens s.this_proposer_id rounds i s.proposer_state state
  unfolding for_range
  open_all zero i s small c free = (
    s.to_acceptors,
    s.proposer_state,
    s.readings,
    refl,
    c,
    record { opened = λ k h. absurd (omega (arith, h)); others = λ j h. refl },
  )
  open_all (suc rounds) i s small c free =
      let (sb, state, r, e, c', first, same) =
        open_one i s c
          (subst (λ n. IsClear (instance_of s n)) (plus_zero i) (free 0 (omega arith))) in
      let apart : (k : ℕ) → k < rounds → slot i ≢ slot (i + 1 + k) =
        λ k h q. omega (arith, h, small, q) in
      let (sb', state', r', e', c'', o) =
        open_all rounds (i + 1) (rest s sb state r) (omega (arith, small)) c' (λ k h.
          rw (same (slot (i + 1 + k)) (apart k h))
            (rw (shift i k) (free (k + 1) (omega (arith, h))))) in
      (
        sb',
        state',
        r',
        rw e e',
        c'',
        Opens-next s.this_proposer_id rounds i _ state state' small first same o,
      )
