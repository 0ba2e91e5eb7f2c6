-- ===== src/Learner/History.antt =====
-- A learner from its start: what it has delivered after any sequence of batches.
use libpaxos.Base.{ℕ, ◌≤◌, ◌<◌, Option, some, List, [], ◌∷◌, ◌≡◌, ◌⊎◌, inl, inr, refl, All}
use libpaxos.Base.{◌>>=◌, arith}
use libpaxos.Messages.{AcceptAck}
use libpaxos.Learner.{Learner, handle_accept_ack_batch, init_learner}
use libpaxos.Learner.Ring.{iid_limit}
use libpaxos.Learner.Invariant.{IsLearner, IsJustified, Consecutive, init_learner-IsLearner}
use libpaxos.Learner.Handler.{handle_accept_ack_lem}

-- The batches that a learner received, oldest first: the acceptor, and its acknowledgements.
abbrev pub Batches : Type 0
Batches = List (ℕ × List AcceptAck)

abbrev pub Contains : List AcceptAck → AcceptAck → Type 0
Contains [] m = ⊥
Contains (x ∷ xs) m = (x ≡ m) ⊎ Contains xs m

-- The acceptor `a` sent `m` in one of the batches.
abbrev pub Received : Batches → ℕ → AcceptAck → Type 0
Received [] a m = ⊥
Received ((b, aas) ∷ hs) a m = ((b ≡ a) × Contains aas m) ⊎ Received hs a m

-- No instance is near the end of its 64-bit type.
abbrev pub IsInRange : AcceptAck → Type 0
IsInRange m = m.iid < iid_limit

unfoldable pub run_batches : Batches → Learner → Option Learner
run_batches [] s = some s
run_batches ((a, aas) ∷ hs) s = handle_accept_ack_batch a aas s >>= run_batches hs

module _ (H : ℕ → AcceptAck → Type 0) where
  pub handle_accept_ack_batch_lem :
      (s : Learner) (acc : ℕ) (aas : List AcceptAck)
      → ((m : AcceptAck) → Contains aas m → H acc m)
      → All IsInRange aas
      → IsLearner H s
      → (s' : Learner) × (handle_accept_ack_batch acc aas s ≡ some s')
        × IsLearner H s'
        × (s.current_iid ≤ s'.current_iid)
  unfolding handle_accept_ack_batch
  handle_accept_ack_batch_lem s acc [] h r l = (s, refl, l, omega arith)
  handle_accept_ack_batch_lem s acc (aa ∷ aas) h r l =
      let (s', e, l', le) = handle_accept_ack_lem H s acc aa (h aa (inl refl)) r.0 l in
      let (s'', e', l'', le') =
        handle_accept_ack_batch_lem s' acc aas (λ m c. h m (inr c)) r.1 l' in
      (s'', rw e e', l'', omega arith)

  run_batches_lem :
      (s : Learner) (hs : Batches)
      → ((a : ℕ) (m : AcceptAck) → Received hs a m → H a m)
      → All (λ b. All IsInRange b.1) hs
      → IsLearner H s
      → (s' : Learner) × (run_batches hs s ≡ some s') × IsLearner H s'
  unfolding run_batches
  run_batches_lem s [] h r l = (s, refl, l)
  run_batches_lem s ((a, aas) ∷ hs) h r l =
      let (s', e, l', le) =
        handle_accept_ack_batch_lem s a aas (λ m c. h a m (inl (refl, c))) r.0 l in
      let (s'', e', l'') = run_batches_lem s' hs (λ b m c. h b m (inr c)) r.1 l' in
      (s'', rw e e', l'')

-- From its start, and for any batches whose instances are below `iid_limit`, a learner never fails
-- an assertion and every loop ends; it has delivered the instances 1, 2, … up to the one before
-- the current instance, each once and in order; and each value that it delivered came in an
-- acknowledgement for the instance, at a ballot at which two different acceptors sent one, or one
-- acceptor sent one that is marked final.
pub learner_delivers :
    (hs : Batches)
    → All (λ b. All IsInRange b.1) hs
    → (s : Learner) × (run_batches hs init_learner ≡ some s)
      × Consecutive 1 s.delivered s.current_iid
      × All (IsJustified (Received hs)) s.delivered
learner_delivers hs r =
    let (s, e, l) =
      run_batches_lem (Received hs) init_learner hs (λ a m c. c) r
        (init_learner-IsLearner (Received hs)) in
    (s, e, l.window.order, l.window.justified)
