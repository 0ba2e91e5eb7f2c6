-- ===== src/Learner/Ring.antt =====
-- The circular buffer of instances: what each record holds, for the acknowledgements received.
use libpaxos.Base.{ℕ, ◌+◌, ◌*◌, ◌-◌, ◌≤◌, ◌<◌, true, false, none, some}
use libpaxos.Base.{◌≡◌, ◌≢◌, ◌⊎◌, inl, inr, refl, ◌==◌, ==_iff, arith}
use libpaxos.Base.{Bool-cases, Option-cases, update, leb}
use mathlib.Core.Path.{subst}
use mathlib.Core.Option.{some-injective}
use libpaxos.Config.{u64_mod, n_of_acceptors, quorum, learner_array_size}
use libpaxos.Messages.{AcceptAck}
use libpaxos.Learner.{InstInfo, slot, claim, replace_ack, lea_store_accept_ack}
use libpaxos.Learner.{lea_check_quorum, count_agreeing}
use libpaxos.Learner.Quorum.{last_votes}
use libpaxos.Learner.Votes.{votes-TwoVotes, any_final-Points}
use libpaxos.Learner.Quorum.{
  lea_check_quorum_iff, lea_check_quorum-closed, Acks, last_final, lea_check_quorum-open,
}

-- Instances stay this far from the end of their 64-bit type, so that no sum of the window wraps.
abbrev pub iid_limit : ℕ
iid_limit = u64_mod - 2 * learner_array_size

update-some :
    (f : Acks) (i j : ℕ) (v m : AcceptAck)
    → update f i (some v) j ≡ some m
    → ((i ≡ j) × (v ≡ m)) ⊎ (f j ≡ some m)
update-some f i j v m h = elim (Bool-cases (i == j)) [
  | inl e ↦ inl (ground arith, ground arith)
  | inr e ↦ inr (ground arith)
]

-- `H a m`: the acknowledgement `m` was received from the acceptor `a`.
module _ (H : ℕ → AcceptAck → Type 0) where
  -- Why an instance may be closed at a ballot.
  pub data Backed (iid ballot : ℕ) : Type 0 where
    by_quorum :
        (i j : ℕ) (a b : AcceptAck)
        → i ≢ j
        → H i a
        → H j b
        → a.iid ≡ iid
        → b.iid ≡ iid
        → a.ballot ≡ ballot
        → b.ballot ≡ ballot
        → Backed iid ballot
    by_final :
        (i : ℕ) (a : AcceptAck)
        → H i a
        → a.iid ≡ iid
        → a.ballot ≡ ballot
        → a.is_final ≡ true
        → Backed iid ballot

  -- A final value was received for the instance, and its ballot is backed.
  pub record Decided (iid : ℕ) (aa : AcceptAck) : Type 0 where
    pub sender : ℕ
    pub received : H sender aa
    pub own : aa.iid ≡ iid
    pub backed : Backed iid aa.ballot

  -- A record that is in use lies in the window, at its own place.
  pub record IsPlaced (current i iid : ℕ) : Type 0 where
    pub place : slot iid ≡ i
    pub above : current ≤ iid
    pub below : iid < current + learner_array_size
    pub limited : iid < iid_limit

  pub record IsSlot (current i : ℕ) (ii : InstInfo) : Type 0 where
    pub placed : ii.iid ≢ 0 → IsPlaced current i ii.iid
    pub vacant : ii.iid ≡ 0 → (ii.final_value ≡ none) × ((a : ℕ) → ii.acks a ≡ none)
    pub own : (a : ℕ) (aa : AcceptAck) → ii.acks a ≡ some aa → (aa.iid ≡ ii.iid) × H a aa
    pub decided : (aa : AcceptAck) → ii.final_value ≡ some aa → Decided ii.iid aa

  -- What holds of the acknowledgement that a handler has before it.
  pub record IsUsable (current : ℕ) (aa : AcceptAck) : Type 0 where
    pub above : current ≤ aa.iid
    pub below : aa.iid < current + learner_array_size
    pub limited : aa.iid < iid_limit
    pub positive : 1 ≤ current

  pub claim-IsSlot :
      (current : ℕ) (ii : InstInfo) (aa : AcceptAck)
      → IsUsable current aa
      → IsSlot current (slot aa.iid) ii
      → IsSlot current (slot aa.iid) (claim ii aa) × ((claim ii aa).iid ≡ aa.iid)
  unfolding claim
  claim-IsSlot current ii aa u k = elim (Bool-cases (ii.iid == 0)) [
    | inl e ↦
        let z = (==_iff ii.iid 0).0 e in
        rw e (
          record {
            placed =
                λ _. record { place = refl; above = u.above; below = u.below; limited = u.limited };
            vacant = λ q. absurd (omega (arith, u.above, u.positive));
            own = λ a m q. absurd (cc ((k.vacant z).1 a));
            decided = λ m q. absurd (cc ((k.vacant z).0));
          },
          refl,
        )
    | inr e ↦
        let p = k.placed (ground arith) in
        rw e (k, omega (arith, p.place, p.above, p.below, u.above, u.below))
  ]

  pub lea_store_accept_ack-IsSlot :
      (current i acc : ℕ) (ii : InstInfo) (aa : AcceptAck)
      → H acc aa
      → aa.iid ≡ ii.iid
      → ii.iid ≢ 0
      → IsSlot current i ii
      → IsSlot current i (lea_store_accept_ack ii acc aa)
  unfolding lea_store_accept_ack
  lea_store_accept_ack-IsSlot current i acc ii aa h e n k = record {
    placed = k.placed;
    vacant = λ z. absurd (n z);
    own = λ a m q. elim (update-some ii.acks acc a aa m q) [
      | inl (ea, em) ↦ rw (← ea, ← em) (e, h)
      | inr q' ↦ k.own a m q'
    ];
    decided = k.decided;
  }

  pub replace_ack-cases :
      (ii : InstInfo) (acc : ℕ) (aa : AcceptAck)
      → (replace_ack ii acc aa ≡ (false, ii))
        ⊎ (replace_ack ii acc aa ≡ (true, lea_store_accept_ack ii acc aa))
  unfolding replace_ack
  replace_ack-cases ii acc aa = elim (Option-cases (ii.acks acc)) [
    | inl e ↦ inr (rw (e, replace_ack))
    | inr (m, e) ↦ elim (Bool-cases (leb aa.ballot m.ballot)) [
      | inl old ↦ inl (rw (e, replace_ack, old))
      | inr new ↦ inr (rw (e, replace_ack, new))
    ]
  ]

  -- The acknowledgements of a record that meets the test of `lea_check_quorum` are backed.
  Backed-of_quorum :
      (current i : ℕ) (ii : InstInfo)
      → IsSlot current i ii
      → (quorum ≤ last_votes ii) ⊎ (last_final ii ≡ true)
      → Backed ii.iid ii.last_update_ballot
  Backed-of_quorum current i ii k (inl q) =
      let t = votes-TwoVotes ii.acks ii.last_update_ballot q in
      let x = k.own t.first t.one t.first_votes.stored in
      let y = k.own t.second t.other t.second_votes.stored in
      by_quorum t.first t.second t.one t.other t.distinct x.1 y.1 x.0 y.0 t.first_votes.agrees
        t.second_votes.agrees
  Backed-of_quorum current i ii k (inr f) =
      let (j, aa, p, final) = any_final-Points ii.acks ii.last_update_ballot n_of_acceptors 0 f in
      let x = k.own j aa p.stored in by_final j aa x.1 x.0 p.agrees final

  pub lea_check_quorum-IsSlot :
      (current i highest : ℕ) (ii : InstInfo)
      → ii.iid ≢ 0
      → IsSlot current i ii
      → IsSlot current i (lea_check_quorum ii highest).1
  lea_check_quorum-IsSlot current i highest ii n k =
      elim (Bool-cases (lea_check_quorum ii highest).0) [
        | inr e ↦ rw (lea_check_quorum-open ii highest e) k
        | inl e ↦
            let (aa, q, p) = lea_check_quorum-closed ii highest e in
            let why = Backed-of_quorum current i ii k ((lea_check_quorum_iff ii highest).0 e) in
            let x = k.own (count_agreeing ii).0 aa p.stored in
            let d : Decided ii.iid aa = record {
              sender = (count_agreeing ii).0;
              received = x.1;
              own = x.0;
              backed = rw p.agrees why;
            } in
            rw q record {
              placed = k.placed;
              vacant = λ z. absurd (n z);
              own = k.own;
              decided = λ m h. subst (λ z. Decided ii.iid z) (some-injective aa m h) d;
            }
      ]
