-- ===== src/Learner/Invariant.antt =====
-- The learner's invariant: the window of instances, and the values delivered so far.
use libpaxos.Base.{ℕ, ◌+◌, ◌%◌, ◌≤◌, none, List, [], ◌∷◌, ◌++◌, All, refl}
use libpaxos.Base.{◌≡◌, arith}
use libpaxos.Config.{max_n_of_proposers}
use libpaxos.Messages.{AcceptAck}
use libpaxos.Learner.{Learner, Delivery, instance_of, init_learner}
use libpaxos.Learner.Ring.{IsSlot, Backed, iid_limit}

-- The instances of the deliveries are `from`, `from + 1`, …, up to `to`, without gap or repetition.
abbrev pub Consecutive : ℕ → List Delivery → ℕ → Type 0
Consecutive from [] to = from ≡ to
Consecutive from (d ∷ ds) to = (d.iid ≡ from) × Consecutive (from + 1) ds to

pub Consecutive-append :
    (from to : ℕ) (ds : List Delivery) (d : Delivery)
    → Consecutive from ds to
    → d.iid ≡ to
    → Consecutive from (ds ++ d ∷ []) (to + 1)
Consecutive-append from to [] d h e = (omega arith, omega arith)
Consecutive-append from to (x ∷ ds) d h e = (h.0, Consecutive-append (from + 1) to ds d h.1 e)

-- `H a m`: the acknowledgement `m` was received from the acceptor `a`.
module _ (H : ℕ → AcceptAck → Type 0) where
  -- The delivered value is one that was received for the instance, at a ballot that is backed.
  pub record IsJustified (d : Delivery) : Type 0 where
    pub sender : ℕ
    pub ack : AcceptAck
    pub received : H sender ack
    pub same_iid : ack.iid ≡ d.iid
    pub same_value : ack.value ≡ d.value
    pub same_ballot : ack.ballot ≡ d.ballot
    pub same_proposer : d.proposer ≡ d.ballot % max_n_of_proposers
    pub backed : Backed H d.iid d.ballot

  -- What holds all through a handler.
  pub record IsWindow (s : Learner) : Type 0 where
    pub positive : 1 ≤ s.current_iid
    pub bounded : s.current_iid ≤ iid_limit
    pub slots : (i : ℕ) → IsSlot H s.current_iid i (s.learner_state i)
    pub order : Consecutive 1 s.delivered s.current_iid
    pub justified : All IsJustified s.delivered

  -- Between two handlers the current instance is open: if it were closed, it would be delivered.
  pub record IsLearner (s : Learner) : Type 0 where
    pub window : IsWindow s
    pub waiting : (instance_of s s.current_iid).final_value ≡ none

  pub init_learner-IsLearner : IsLearner init_learner
  init_learner-IsLearner = record {
    window = record {
      positive = omega arith;
      bounded = omega arith;
      slots = λ i. record {
        placed = λ n. absurd (n refl);
        vacant = λ _. (refl, λ _. refl);
        own = λ a m q. absurd (cc);
        decided = λ m q. absurd (cc);
      };
      order = refl;
      justified = tt;
    };
    waiting = refl;
  }
