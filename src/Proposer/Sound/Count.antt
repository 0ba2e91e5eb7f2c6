-- ===== src/Proposer/Sound/Count.antt =====
-- The number of slots of the state array whose instance is of a kind.
use libpaxos.Base.{
  ℕ, zero, suc, ◌+◌, ◌≤◌, ◌<◌, ◌≡◌, refl, true, false, ◌==◌, ==_iff, inl, inr, Bool, Bool-cases,
  if◌then◌else◌, arith, update,
}
use libpaxos.Proposer.{Instance}

abbrev pub one_if : Bool → ℕ
one_if b = if b then 1 else 0

-- Among the first `n` slots.
unfoldable pub count : (Instance → Bool) → ℕ → (ℕ → Instance) → ℕ
count kind zero state = 0
count kind (suc n) state = count kind n state + one_if (kind (state n))

module _ (kind : Instance → Bool) (state : ℕ → Instance) where
  pub count-le : (n : ℕ) → count kind n state ≤ n
  unfolding count
  count-le zero = omega arith
  count-le (suc n) = ground (arith, count-le n)

  count-beyond :
      (n i : ℕ) (ii : Instance) → n ≤ i → count kind n (update state i ii) ≡ count kind n state
  unfolding count
  count-beyond zero i ii b = refl
  count-beyond (suc n) i ii b =
      let other : (i == n) ≡ false = ground arith in
      rw (other, count-beyond n i ii (omega (arith, b))) refl

  -- A write to a slot changes the number by that slot.
  pub count-update :
      (n i : ℕ) (ii : Instance)
      → i < n
      → count kind n (update state i ii) + one_if (kind (state i))
        ≡ count kind n state + one_if (kind ii)
  unfolding count
  count-update zero i ii b = absurd (omega (arith, b))
  count-update (suc n) i ii b = elim (Bool-cases (i == n)) [
    | inl last ↦
        let e : i ≡ n = (==_iff i n).0 last in
        let before = count-beyond n i ii (omega (arith, e)) in rw (last, before, e) (omega arith)
    | inr other ↦
        let ih = count-update n i ii (ground (arith, b, other)) in rw other (omega (arith, ih))
  ]

  -- A slot of the kind is counted.
  pub count-pos : (n i : ℕ) → i < n → kind (state i) ≡ true → 1 ≤ count kind n state
  unfolding count
  count-pos zero i b h = absurd (omega (arith, b))
  count-pos (suc n) i b h = elim (Bool-cases (i == n)) [
    | inl last ↦
        let e : i ≡ n = (==_iff i n).0 last in
        let k : kind (state n) ≡ true = rw e at h in rw k (omega arith)
    | inr other ↦ let ih = count-pos n i (ground (arith, b, other)) h in omega (arith, ih)
  ]
