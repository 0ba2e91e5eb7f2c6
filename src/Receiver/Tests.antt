-- ===== src/Receiver/Tests.antt =====
-- Instances of the theorems about the checks on a datagram.
use libpaxos.Base.{ℕ, Bool, none, some, ◌+◌, ◌≡◌, ◌↔◌, true, false, [], ◌∷◌}
use libpaxos.Config.{u64_mod}
use libpaxos.Base.{◌%◌}
use libpaxos.Messages.{paxos_msg_header}
use libpaxos.Receiver.{Datagram, submit, validate_paxos_msg}
use libpaxos.Receiver.Sockets.{
  SocketCall, bind, Sockets, udp_receiver_new, all_succeed, udp_receiver_new_lem,
}
use libpaxos.Receiver.Checks.{validate_paxos_msg_iff, HasValidSender}

-- A datagram of 12 bytes, with a declared size that wraps around.
abbrev wrapping : Datagram
wrapping = record { data_size = 18446744073709551612; body = submit [] }

validate_paxos_msg_iff_example :
    (validate_paxos_msg wrapping 12 ≡ true)
    ↔ (((18446744073709551612 + paxos_msg_header) % u64_mod ≡ 12) × HasValidSender (submit []))
validate_paxos_msg_iff_example = validate_paxos_msg_iff wrapping 12

-- The address is in use.
abbrev fails_to_bind : ℕ → SocketCall → Bool
fails_to_bind n bind = false
fails_to_bind n _ = true

abbrev three_sockets : Sockets
three_sockets = record { calls = 9; next_sock = 6; live = 5 ∷ 4 ∷ 3 ∷ []; nonblocking = 4 ∷ [] }

udp_receiver_new_lem_example :
    let (rec, s') = udp_receiver_new fails_to_bind true three_sockets in
    (all_succeed fails_to_bind true 9 ≡ true
      → (rec ≡ some 6) × (s'.live ≡ 6 ∷ 5 ∷ 4 ∷ 3 ∷ []) × (s'.nonblocking ≡ 6 ∷ 4 ∷ []))
    × (all_succeed fails_to_bind true 9 ≡ false → (rec ≡ none) × (s'.live ≡ 6 ∷ 5 ∷ 4 ∷ 3 ∷ []))
udp_receiver_new_lem_example = udp_receiver_new_lem fails_to_bind true three_sockets
