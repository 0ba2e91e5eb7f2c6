-- ===== src/Learner/Dispatch.antt =====
-- lib/learner.c, `lea_handle_newmsg`: a learner over the datagrams that it receives, valid or not.
use libpaxos.Base.{ℕ, ◌<◌, Option, none, some, List, [], ◌∷◌, ◌≡◌, ◌⊎◌, inl, inr, refl, All}
use libpaxos.Base.{◌>>=◌, Option-cases, Bool-cases}
use mathlib.Core.Path.{subst}
use mathlib.Core.Option.{some-injective}
use libpaxos.Config.{n_of_acceptors}
use libpaxos.Messages.{AcceptAck}
use libpaxos.Receiver.{Body, Datagram, udp_read_next_message, validate_paxos_msg, accept_acks}
use libpaxos.Receiver.Checks.{validate_paxos_msg_iff, HasValidSender}
use libpaxos.Learner.{Learner, handle_accept_ack_batch, init_learner}
use libpaxos.Learner.Invariant.{IsLearner, IsJustified, Consecutive, init_learner-IsLearner}
use libpaxos.Learner.History.{Contains, IsInRange, handle_accept_ack_batch_lem}

unfoldable pub lea_handle_newmsg : Option (Datagram × ℕ) → Learner → Option Learner
lea_handle_newmsg received s = elim (udp_read_next_message received) [
  | some (accept_acks acceptor_id aas) ↦ handle_accept_ack_batch acceptor_id aas s
  | _ ↦ some s
]

-- What `recvfrom` gave, one result after another.
abbrev pub Arrivals : Type 0
Arrivals = List (Option (Datagram × ℕ))

unfoldable pub run_arrivals : Arrivals → Learner → Option Learner
run_arrivals [] s = some s
run_arrivals (d ∷ ds) s = lea_handle_newmsg d s >>= run_arrivals ds

-- A batch of acknowledgements that passes the checks.
abbrev pub Reads : Option (Datagram × ℕ) → ℕ → List AcceptAck → Type 0
Reads d a aas = udp_read_next_message d ≡ some (accept_acks a aas)

-- The acknowledgement `m` of the acceptor `a` came in one of the datagrams.
abbrev pub Arrived : Arrivals → ℕ → AcceptAck → Type 0
Arrived [] a m = ⊥
Arrived (d ∷ ds) a m = ((aas : List AcceptAck) × Reads d a aas × Contains aas m) ⊎ Arrived ds a m

-- The instances of the acknowledgements that are read are not near the end of their type.
abbrev pub HasRange : Option Body → Type 0
HasRange (some (accept_acks a aas)) = All IsInRange aas
HasRange _ = Unit

abbrev pub IsLimited : Option (Datagram × ℕ) → Type 0
IsLimited d = HasRange (udp_read_next_message d)

-- The sender of a batch that passes the checks is in bounds.
sender_lt :
    (d : Option (Datagram × ℕ)) (a : ℕ) (aas : List AcceptAck) → Reads d a aas → a < n_of_acceptors
unfolding udp_read_next_message
sender_lt none a aas h = absurd (let k = h in cc)
sender_lt (some (m, size)) a aas h = elim (Bool-cases (validate_paxos_msg m size)) [
  | inr e ↦ absurd (let k = rw e at h in cc)
  | inl e ↦
      let same = some-injective m.body (accept_acks a aas) (rw e at h) in
      subst (λ b. HasValidSender b) same ((validate_paxos_msg_iff m size).0 e).1
]

module _ (H : ℕ → AcceptAck → Type 0) where
  lea_handle_newmsg_lem :
      (d : Option (Datagram × ℕ)) (s : Learner)
      → ((a : ℕ) (aas : List AcceptAck) → Reads d a aas → (m : AcceptAck) → Contains aas m → H a m)
      → IsLimited d
      → IsLearner H s
      → (s' : Learner) × (lea_handle_newmsg d s ≡ some s') × IsLearner H s'
  unfolding lea_handle_newmsg
  lea_handle_newmsg_lem d s h r l = elim (Option-cases (udp_read_next_message d)) [
    | inl e ↦ (s, rw (e, lea_handle_newmsg) refl, l)
    | inr (b, e) ↦ by_body b e
  ]
    where
      by_body :
          (b : Body)
          → udp_read_next_message d ≡ some b
          → (s' : Learner) × (lea_handle_newmsg d s ≡ some s') × IsLearner H s'
      by_body (accept_acks a aas) e =
          let limited : HasRange (some (accept_acks a aas)) = rw e at r in
          let (s', e', l', le) = handle_accept_ack_batch_lem H s a aas (h a aas e) limited l in
          (s', rw (e, lea_handle_newmsg) e', l')
      by_body _ e = (s, rw (e, lea_handle_newmsg) refl, l)

  run_arrivals_lem :
      (ds : Arrivals) (s : Learner)
      → ((a : ℕ) (m : AcceptAck) → (a < n_of_acceptors) × Arrived ds a m → H a m)
      → All IsLimited ds
      → IsLearner H s
      → (s' : Learner) × (run_arrivals ds s ≡ some s') × IsLearner H s'
  unfolding run_arrivals
  run_arrivals_lem [] s h r l = (s, refl, l)
  run_arrivals_lem (d ∷ ds) s h r l =
      let (s', e, l') =
        lea_handle_newmsg_lem d s (λ a aas p m c. h a m (sender_lt d a aas p, inl (aas, p, c))) r.0
          l in
      let (s'', e', l'') = run_arrivals_lem ds s' (λ a m c. h a m (c.0, inr c.1)) r.1 l' in
      (s'', rw e e', l'')

-- A learner takes any sequence of datagrams, valid or not, whose acknowledgements are for instances
-- below `iid_limit`: no assertion fails, every loop ends, it has delivered the instances 1, 2, …
-- up to the one before the current instance, each once and in order, and each value is backed, as
-- `learner_delivers` says, by acknowledgements of senders below N_OF_ACCEPTORS that came in the
-- datagrams that passed the checks.
pub newmsg_delivers :
    (ds : Arrivals)
    → All IsLimited ds
    → (s : Learner) × (run_arrivals ds init_learner ≡ some s)
      × Consecutive 1 s.delivered s.current_iid
      × All (IsJustified (λ a m. (a < n_of_acceptors) × Arrived ds a m)) s.delivered
newmsg_delivers ds r =
    let H = λ (a : ℕ) (m : AcceptAck). (a < n_of_acceptors) × Arrived ds a m in
    let (s, e, l) = run_arrivals_lem H ds init_learner (λ a m c. c) r (init_learner-IsLearner H) in
    (s, e, l.window.order, l.window.justified)
