-- ===== src/Learner/Votes.antt =====
-- Who the members of a quorum are.
use libpaxos.Base.{ℕ, zero, suc, ◌+◌, ◌≤◌, true, ◌≡◌, ◌≢◌, inl, inr, ==_iff, arith}
use libpaxos.Base.{Bool-cases, Option-cases}
use libpaxos.Config.{n_of_acceptors, quorum}
use libpaxos.Messages.{AcceptAck}
use libpaxos.Learner.Quorum.{votes, any_final, votes_for, is_final_for, Points, Acks}

votes_for-Points :
    (acks : Acks) (b i : ℕ) → votes_for b (acks i) ≡ true → (aa : AcceptAck) × Points acks b i aa
votes_for-Points acks b i h = elim (Option-cases (acks i)) [
  | inl e ↦ absurd (let k = rw e at h in cc)
  | inr (aa, e) ↦
      (aa, record { stored = e; agrees = (==_iff aa.ballot b).0 (let k = rw e at h in k) })
]

-- Two different acceptors vote at the ballot.
pub record TwoVotes (acks : Acks) (b : ℕ) : Type 0 where
  pub first : ℕ
  pub second : ℕ
  pub one : AcceptAck
  pub other : AcceptAck
  pub distinct : first ≢ second
  pub first_votes : Points acks b first one
  pub second_votes : Points acks b second other

two_votes :
    (acks : Acks) (b i j : ℕ)
    → i ≢ j
    → votes_for b (acks i) ≡ true
    → votes_for b (acks j) ≡ true
    → TwoVotes acks b
two_votes acks b i j d hi hj =
    let (x, p) = votes_for-Points acks b i hi in
    let (y, q) = votes_for-Points acks b j hj in
    record {
      first = i;
      second = j;
      one = x;
      other = y;
      distinct = d;
      first_votes = p;
      second_votes = q;
    }

-- A quorum has two members.
pub votes-TwoVotes :
    (acks : Acks) (b : ℕ) → quorum ≤ votes acks b n_of_acceptors 0 → TwoVotes acks b
unfolding votes
votes-TwoVotes acks b h = elim (Bool-cases (votes_for b (acks 0))) [
  | inl v0 ↦ elim (Bool-cases (votes_for b (acks 1))) [
    | inl v1 ↦ two_votes acks b 0 1 (omega arith) v0 v1
    | inr n1 ↦ two_votes acks b 0 2 (omega arith) v0 (ground arith)
  ]
  | inr n0 ↦ two_votes acks b 1 2 (omega arith) (ground arith) (ground arith)
]

pub any_final-Points :
    (acks : Acks) (b rounds i : ℕ)
    → any_final acks b rounds i ≡ true
    → (j : ℕ) × (aa : AcceptAck) × Points acks b j aa × (aa.is_final ≡ true)
unfolding any_final
any_final-Points acks b zero i h = absurd (cc)
any_final-Points acks b (suc rounds) i h = elim (Bool-cases (is_final_for b (acks i))) [
  | inr n ↦ any_final-Points acks b rounds (i + 1) (let k = rw n at h in k)
  | inl f ↦ elim (Option-cases (acks i)) [
    | inl e ↦ absurd (let k = rw e at f in cc)
    | inr (aa, e) ↦
        let k = rw e at f in (i, aa, record { stored = e; agrees = ground arith }, ground arith)
  ]
]
