-- ===== src/Proposer/Ballots.antt =====
-- The ballots that a proposer uses for an instance, one after another.
use libpaxos.Base.{ℕ, zero, suc, ◌+◌, ◌*◌, ◌/◌, ◌-◌, ◌%◌, ◌≤◌, ◌<◌, ◌≡◌, sym, ◌∙◌, arith}
use libpaxos.Config.{max_n_of_proposers, u32_mod}
use libpaxos.Proposer.{first_ballot, next_ballot}

-- The ballot of an instance after a number of restarts.
abbrev pub ballot_after : ℕ → ℕ → ℕ
ballot_after id zero = first_ballot id
ballot_after id (suc n) = next_ballot (ballot_after id n)

-- The restarts that an `unsigned int` has room for.
abbrev pub no_wrap : ℕ
no_wrap = u32_mod / max_n_of_proposers - 2

ballot_after-eq :
    (id n : ℕ)
    → id < max_n_of_proposers
    → n ≤ no_wrap
    → ballot_after id n ≡ (n + 1) * max_n_of_proposers + id
ballot_after-eq id zero h b = omega (arith, h)
ballot_after-eq id (suc n) h b =
    let ih : ballot_after id n ≡ (n + 1) * max_n_of_proposers + id =
      ballot_after-eq id n h (omega (arith, b)) in
    rw ih (omega (arith, h, b))

-- Until the ballots wrap around, each restart raises the ballot, and the ballot tells which
-- proposer it is from: the remainder that the deliver callback reports is its number.
pub next_ballot_lem :
    (id n : ℕ)
    → id < max_n_of_proposers
    → n < no_wrap
    → (ballot_after id n < next_ballot (ballot_after id n))
      × (next_ballot (ballot_after id n) % max_n_of_proposers ≡ id)
      × (ballot_after id n % max_n_of_proposers ≡ id)
next_ballot_lem id n h b =
    let e = ballot_after-eq id n h (omega (arith, b)) in
    rw e (omega (arith, h, b), omega (arith, h, b), omega (arith, h, b))

-- Until the ballots wrap around, two proposers never use the same ballot, nor one proposer after
-- different numbers of restarts.
pub ballots_differ :
    (id id' n n' : ℕ)
    → id < max_n_of_proposers
    → id' < max_n_of_proposers
    → n ≤ no_wrap
    → n' ≤ no_wrap
    → ballot_after id n ≡ ballot_after id' n'
    → (id ≡ id') × (n ≡ n')
ballots_differ id id' n n' h h' b b' e =
    let l = ballot_after-eq id n h b in
    let r = ballot_after-eq id' n' h' b' in
    let sums : (n + 1) * max_n_of_proposers + id ≡ (n' + 1) * max_n_of_proposers + id' =
      sym l ∙ e ∙ r in
    (omega (arith, h, h', sums), omega (arith, h, h', sums))
