-- ===== src/Proposer/Accepts/Slots.antt =====
-- The state array of a leader and its accept requests: what holds of them all through a reign, and
-- the changes of one instance that keep it.
use libpaxos.Base.{
  ℕ, ◌+◌, ◌*◌, ◌≤◌, ◌<◌, ◌≡◌, inl, inr, sym, ◌∙◌, ap, ◌==◌, arith, update, Bool-cases, List,
}
use libpaxos.Config.{max_n_of_proposers}
use libpaxos.Messages.{AcceptReq}
use libpaxos.SendBuf.{SendBuf}
use libpaxos.Proposer.{Instance, status_number, slot, next_ballot}
use libpaxos.Proposer.Ballots.{no_wrap}
use libpaxos.Proposer.Accepts.{HasIssued}

-- The instance is in use, and has sent its accept request.
abbrev pub IsHeld : Instance → Type 0
IsHeld ii = 0 < status_number ii.status

abbrev pub IsPhase2 : Instance → Type 0
IsPhase2 ii = 3 ≤ status_number ii.status

-- A ballot of the proposer's own, after at most `n` restarts.
abbrev pub IsOwn : ℕ → ℕ → ℕ → Type 0
IsOwn id n b = (k : ℕ) × (k ≤ n) × (b ≡ (k + 1) * max_n_of_proposers + id)

-- An instance in a slot: its number belongs there, is among the opened, and its ballot is own.
abbrev pub Placed : ℕ → ℕ → ℕ → ℕ → Instance → Type 0
Placed id n top i ii = IsHeld ii → (slot ii.iid ≡ i) × (ii.iid ≤ top) × IsOwn id n ii.my_ballot

-- An accept request and an instance: while the instance is in use, its ballot is not below the
-- request's, and above it in phase 1.
abbrev pub Behind : AcceptReq → Instance → Type 0
Behind ar ii =
    IsHeld ii
    → ii.iid ≡ ar.iid
    → (ar.ballot ≤ ii.my_ballot) × (ar.ballot ≡ ii.my_ballot → IsPhase2 ii)

abbrev pub OneValue : SendBuf → Type 0
OneValue sb =
    (ar ar' : AcceptReq)
    → HasIssued sb ar
    → HasIssued sb ar'
    → ar.iid ≡ ar'.iid
    → ar.ballot ≡ ar'.ballot
    → ar.value ≡ ar'.value

-- The proposer, the number of restarts, the highest number opened, the array and the buffer.
pub record Slots (id n top : ℕ) (state : ℕ → Instance) (sb : SendBuf) : Type 0 where
  pub placed : (i : ℕ) → Placed id n top i (state i)
  pub opened : (ar : AcceptReq) → HasIssued sb ar → ar.iid ≤ top
  pub own : (ar : AcceptReq) → HasIssued sb ar → IsOwn id n ar.ballot
  pub behind : (ar : AcceptReq) → HasIssued sb ar → (i : ℕ) → Behind ar (state i)
  pub one_value : OneValue sb

-- The accept request of an instance, with a value.
abbrev pub request : Instance → List ℕ → AcceptReq
request ii value = record { iid = ii.iid; ballot = ii.my_ballot; value = value }

module _ {id n top : ℕ} {state : ℕ → Instance} {sb : SendBuf} where
  -- The buffer changes, and issues nothing new.
  pub Slots-buffer :
      (sb' : SendBuf)
      → ((ar : AcceptReq) → HasIssued sb' ar → HasIssued sb ar)
      → Slots id n top state sb
      → Slots id n top state sb'
  Slots-buffer sb' k g = record {
    placed = g.placed;
    opened = λ ar h. g.opened ar (k ar h);
    own = λ ar h. g.own ar (k ar h);
    behind = λ ar h. g.behind ar (k ar h);
    one_value = λ ar ar' h h'. g.one_value ar ar' (k ar h) (k ar' h');
  }

  -- One slot is written, and the counts may grow.
  pub Slots-write :
      (n' top' : ℕ) (i : ℕ) (ii : Instance)
      → n ≤ n'
      → top ≤ top'
      → Placed id n' top' i ii
      → ((ar : AcceptReq) → HasIssued sb ar → Behind ar ii)
      → Slots id n top state sb
      → Slots id n' top' (update state i ii) sb
  Slots-write n' top' i ii bn bt p b g = record {
    placed = λ j. elim (Bool-cases (i == j)) [
      | inl same ↦ let e : i ≡ j = ground arith in rw (same, sym e) p
      | inr other ↦ rw other (λ held.
          let (a, c, (k, d, e)) = g.placed j held in
          (a, omega (arith, c, bt), (k, omega (arith, d, bn), e)))
    ];
    opened = λ ar h. let a = g.opened ar h in omega (arith, a, bt);
    own = λ ar h. let (k, d, e) = g.own ar h in (k, omega (arith, d, bn), e);
    behind = λ ar h j. elim (Bool-cases (i == j)) [
      | inl same ↦ rw same (b ar h)
      | inr other ↦ rw other (g.behind ar h j)
    ];
    one_value = g.one_value;
  }

  -- One slot is written, and the instance's number and ballot stay.
  pub Slots-keep :
      (i : ℕ) (ii : Instance)
      → ii.iid ≡ (state i).iid
      → ii.my_ballot ≡ (state i).my_ballot
      → (IsHeld ii → IsHeld (state i))
      → (IsPhase2 (state i) → IsPhase2 ii)
      → Slots id n top state sb
      → Slots id n top (update state i ii) sb
  Slots-keep i ii e e' held later g =
      Slots-write n top i ii (omega arith) (omega arith)
        (λ h. let (a, c, own) = g.placed i (held h) in rw (e, e') (a, c, own))
        (λ ar issued h same.
          let (low, at) = g.behind ar issued i (held h) (sym e ∙ same) in
          rw e' (low, λ b. later (at b)))
        g

  -- A slot is emptied.
  pub Slots-empty :
      (i : ℕ) (ii : Instance)
      → ¬ IsHeld ii
      → Slots id n top state sb
      → Slots id n top (update state i ii) sb
  Slots-empty i ii free g =
      Slots-write n top i ii (omega arith) (omega arith) (λ h. absurd (free h))
        (λ ar issued h. absurd (free h)) g

  -- An instance is opened above all others, with the first ballot.
  pub Slots-open :
      (ii : Instance)
      → ii.iid ≡ top + 1
      → ii.my_ballot ≡ max_n_of_proposers + id
      → Slots id n top state sb
      → Slots id n (top + 1) (update state (slot (top + 1)) ii) sb
  Slots-open ii e e' g =
      Slots-write n (top + 1) (slot (top + 1)) ii (omega arith) (omega arith)
        (λ h. (ap slot e, omega (arith, e), (0, omega arith, omega (arith, e'))))
        (λ ar issued h same. absurd (let low = g.opened ar issued in omega (arith, e, same, low))) g

  -- An instance goes back to phase 1, or stays in it, with its next ballot.
  pub Slots-restart :
      (i : ℕ) (ii : Instance)
      → id < max_n_of_proposers
      → n < no_wrap
      → IsHeld (state i)
      → ii.iid ≡ (state i).iid
      → ii.my_ballot ≡ next_ballot (state i).my_ballot
      → Slots id n top state sb
      → Slots id (n + 1) top (update state i ii) sb
  Slots-restart i ii small room held e e' g =
      let (a, c, (k, d, own)) = g.placed i held in
      let b = (state i).my_ballot in
      let sum : b ≡ (k + 1) * max_n_of_proposers + id = own in
      let next : ii.my_ballot ≡ (k + 2) * max_n_of_proposers + id =
        omega (arith, e', sum, d, room, small) in
      Slots-write (n + 1) top i ii (omega arith) (omega arith)
        (λ h. rw e (a, c, (k + 1, omega (arith, d), omega (arith, next))))
        (λ ar issued h same.
          let low : ar.ballot ≤ b = (g.behind ar issued i held (sym e ∙ same)).0 in
          (omega (arith, low, next, sum), λ k. absurd (omega (arith, k, low, next, sum))))
        g
