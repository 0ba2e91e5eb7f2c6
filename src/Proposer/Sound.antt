-- ===== src/Proposer/Sound.antt =====
-- lib/proposer_leader.c: that the assertions of a leader hold. Here are the rules for steps that
-- succeed; the children have the state array with its counters, and the routines that keep it.
pub mod Count
pub mod Array
pub mod Changes
pub mod First
pub mod Ahead
pub mod Second
pub mod New
pub mod Timeouts
pub mod Promise
pub mod Delivery
pub mod Change
pub mod Life
pub mod Lives
mod Tests
use libpaxos.Base.{
  ℕ, zero, suc, ◌+◌, ◌≤◌, ◌<◌, ◌≡◌, refl, Bool, true, false, Option, some, if◌then◌else◌, ◌>>=◌,
  ◌>>◌, assert, arith,
}
use libpaxos.Proposer.{Proposer, for_range}
use libpaxos.Proposer.Opening.{plus_zero, shift}

-- The steps succeed, and the result is as `P` says.
pub data Succeeds {A : Type 0} (P : A → Type 0) : Option A → Type 0 where
  succeeds : {a : A} → P a → Succeeds P (some a)

module _ {A : Type 0} {P : A → Type 0} where
  pub Succeeds-bind :
      {B : Type 0} {Q : B → Type 0} {m : Option A} {f : A → Option B}
      → Succeeds P m
      → ((a : A) → P a → Succeeds Q (f a))
      → Succeeds Q (m >>= f)
  Succeeds-bind (succeeds p) k = k _ p

  pub Succeeds-if :
      (b : Bool) {m n : Option A}
      → (b ≡ true → Succeeds P m)
      → (b ≡ false → Succeeds P n)
      → Succeeds P (if b then m else n)
  Succeeds-if true p q = p refl
  Succeeds-if false p q = q refl

  pub Succeeds-assert :
      (b : Bool) {m : Option A} → b ≡ true → Succeeds P m → Succeeds P (assert b >> m)
  Succeeds-assert b e k = rw e k

  pub Succeeds-map :
      {Q : A → Type 0} {m : Option A} → Succeeds P m → ((a : A) → P a → Q a) → Succeeds Q m
  Succeeds-map (succeeds p) k = succeeds (k _ p)

  pub Succeeds-result : {o : Option A} → Succeeds P o → (a : A) × (o ≡ some a) × P a
  Succeeds-result (succeeds p) = (_, refl, p)

  pub Succeeds-at : {a : A} → Succeeds P (some a) → P a
  Succeeds-at (succeeds p) = p

-- A loop whose rounds keep what they need of each other.
pub for_range-Succeeds :
    (P : ℕ → Proposer → Type 0) (body : ℕ → Proposer → Option Proposer) (end : ℕ)
    → ((i : ℕ) (s : Proposer) → i < end → P i s → Succeeds (P (i + 1)) (body i s))
    → (rounds i : ℕ) (s : Proposer) → i + rounds ≤ end
    → P i s
    → Succeeds (P (i + rounds)) (for_range body rounds i s)
unfolding for_range
for_range-Succeeds P body end step zero i s b h = succeeds (rw (plus_zero i) h)
for_range-Succeeds P body end step (suc rounds) i s b h =
    Succeeds-bind (step i s (omega (arith, b)) h) (λ s' h'.
      let e : i + suc rounds ≡ i + 1 + rounds = omega arith in
      rw e (for_range-Succeeds P body end step rounds (i + 1) s' (omega (arith, b)) h'))
