-- ===== src/Receiver/Checks.antt =====
-- What the checks on a datagram guarantee to a handler, and what they do not.
use libpaxos.Base.{ℕ, ◌+◌, ◌%◌, ◌<◌, ◌≡◌, ◌↔◌, true, refl, arith}
use libpaxos.Base.{==_iff, ◌==◌, is_some, Bool-cases, inl, inr}
use libpaxos.Config.{u64_mod, max_n_of_proposers, n_of_acceptors}
use libpaxos.Messages.{paxos_msg_header}
use libpaxos.Receiver.{Body, Datagram, validate_paxos_msg, expected_size}
use libpaxos.Receiver.{prepare_reqs, prepare_acks, accept_reqs, accept_acks, repeat_reqs, submit}
use libpaxos.Receiver.{alive_ping, leader_announce, unknown}

-- The type is known, and the sender of a batch is a proposer or an acceptor of the configuration.
abbrev pub HasValidSender : Body → Type 0
HasValidSender (prepare_reqs id prb) = id < max_n_of_proposers
HasValidSender (prepare_acks id pab) = id < n_of_acceptors
HasValidSender (accept_reqs id arb) = id < max_n_of_proposers
HasValidSender (accept_acks id aab) = id < n_of_acceptors
HasValidSender (repeat_reqs rrb) = Unit
HasValidSender (submit value) = Unit
HasValidSender (alive_ping id seqno) = Unit
HasValidSender (leader_announce id) = Unit
HasValidSender (unknown type) = ⊥

expected_size_iff : (n : ℕ) (b : Body) → (is_some (expected_size n b) ≡ true) ↔ HasValidSender b
unfolding expected_size
expected_size_iff n (prepare_reqs id prb) = (λ h. ground arith, λ h. ground arith)
expected_size_iff n (prepare_acks id pab) = (λ h. ground arith, λ h. ground arith)
expected_size_iff n (accept_reqs id arb) = (λ h. ground arith, λ h. ground arith)
expected_size_iff n (accept_acks id aab) = (λ h. ground arith, λ h. ground arith)
expected_size_iff n (unknown type) = (λ h. cc, λ h. absurd h)
expected_size_iff n _ = (λ _. tt, λ _. refl)

-- A datagram passes exactly when its declared size with that of the header, as a 64-bit sum that
-- wraps around, is its real size, its type is known, and the sender of a batch is in bounds.
pub validate_paxos_msg_iff :
    (m : Datagram) (msg_size : ℕ)
    → (validate_paxos_msg m msg_size ≡ true)
      ↔ (((m.data_size + paxos_msg_header) % u64_mod ≡ msg_size) × HasValidSender m.body)
unfolding validate_paxos_msg
validate_paxos_msg_iff m msg_size =
    elim (Bool-cases ((m.data_size + paxos_msg_header) % u64_mod == msg_size)) [
      | inl same ↦
          let e = (==_iff ((m.data_size + paxos_msg_header) % u64_mod) msg_size).0 same in
          rw same (
            (λ h. (e, (expected_size_iff m.data_size m.body).0 h)),
            (λ h. (expected_size_iff m.data_size m.body).1 h.1),
          )
      | inr other ↦ rw other ((λ h. cc), (λ h. ground (arith, h.0)))
    ]
