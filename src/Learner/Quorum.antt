-- ===== src/Learner/Quorum.antt =====
-- `lea_check_quorum` against a count of the votes, written apart from the code.
use libpaxos.Base.{ℕ, zero, suc, ◌+◌, ◌-◌, ◌≤◌, Bool, true, false, ◌||◌, ◌&&◌, Option, none, some}
use libpaxos.Base.{◌≡◌, ◌⊎◌, ◌↔◌, inl, inr, refl, ==_iff, if◌then◌else◌, ◌==◌, leb, leb→le, arith}
use libpaxos.Base.{Bool-cases, Option-cases, not-leb→lt}
use libpaxos.Config.{u64_mod, n_of_acceptors, quorum}
use libpaxos.Messages.{AcceptAck}
use libpaxos.Learner.{InstInfo, count_acks, count_agreeing, lea_check_quorum}

abbrev pub Acks : Type 0
Acks = ℕ → Option AcceptAck

-- Is there an acknowledgement at this ballot?
abbrev pub votes_for : ℕ → Option AcceptAck → Bool
votes_for ballot none = false
votes_for ballot (some aa) = aa.ballot == ballot

-- And one that says that its value is final?
abbrev pub is_final_for : ℕ → Option AcceptAck → Bool
is_final_for ballot none = false
is_final_for ballot (some aa) = (aa.ballot == ballot) && aa.is_final

-- The acceptors `i`, `i + 1`, …, as many as the rounds, that vote at the ballot.
unfoldable pub votes : Acks → ℕ → ℕ → ℕ → ℕ
votes acks ballot zero i = 0
votes acks ballot (suc rounds) i =
    (if votes_for ballot (acks i) then 1 else 0) + votes acks ballot rounds (i + 1)

unfoldable pub any_final : Acks → ℕ → ℕ → ℕ → Bool
any_final acks ballot zero i = false
any_final acks ballot (suc rounds) i =
    is_final_for ballot (acks i) || any_final acks ballot rounds (i + 1)

count_acks-votes :
    (acks : Acks) (last rounds i v c : ℕ)
    → any_final acks last rounds i ≡ false
    → (count_acks acks last rounds i v c).1 ≡ c + votes acks last rounds i
unfolding count_acks votes any_final
count_acks-votes acks last zero i v c h = omega arith
count_acks-votes acks last (suc rounds) i v c h = ground (
  arith,
  count_acks-votes acks last rounds (i + 1) v c,
  count_acks-votes acks last rounds (i + 1) i (c + 1),
)

count_acks-final :
    (acks : Acks) (last rounds i v c : ℕ)
    → any_final acks last rounds i ≡ true
    → quorum ≤ (count_acks acks last rounds i v c).1
unfolding count_acks any_final
count_acks-final acks last zero i v c h = ground arith
count_acks-final acks last (suc rounds) i v c h = ground (
  arith,
  count_acks-final acks last rounds (i + 1) v c,
  count_acks-final acks last rounds (i + 1) i (c + 1),
)

-- What the loop's index points to, if it was set.
pub record Points (acks : Acks) (last valid : ℕ) (aa : AcceptAck) : Type 0 where
  pub stored : acks valid ≡ some aa
  pub agrees : aa.ballot ≡ last

-- The index is one of an agreeing acknowledgement, as soon as one was counted.
abbrev Found : Acks → ℕ → ℕ × ℕ → Type 0
Found acks last r = (r.1 ≡ 0) ⊎ ((aa : AcceptAck) × Points acks last r.0 aa)

count_acks-Found :
    (acks : Acks) (last rounds i v c : ℕ)
    → Found acks last (v, c)
    → Found acks last (count_acks acks last rounds i v c)
unfolding count_acks
count_acks-Found acks last zero i v c f = f
count_acks-Found acks last (suc rounds) i v c f = elim (Option-cases (acks i)) [
  | inl e ↦ rw (e, count_acks) (count_acks-Found acks last rounds (i + 1) v c f)
  | inr (aa, e) ↦ elim (Bool-cases (aa.ballot == last)) [
    | inr other ↦ rw (e, count_acks, other) (count_acks-Found acks last rounds (i + 1) v c f)
    | inl same ↦
        let here : Found acks last (i, c + 1) =
          inr (aa, record { stored = e; agrees = (==_iff aa.ballot last).0 same }) in
        elim (Bool-cases aa.is_final) [
          | inl final ↦
              rw (e, count_acks, same, final)
                (inr (aa, record { stored = e; agrees = (==_iff aa.ballot last).0 same }))
          | inr plain ↦
              rw (e, count_acks, same, plain)
                (count_acks-Found acks last rounds (i + 1) i (c + 1) here)
        ]
  ]
]

-- The votes of all acceptors at the ballot last stored.
abbrev pub last_votes : InstInfo → ℕ
last_votes ii = votes ii.acks ii.last_update_ballot n_of_acceptors 0

abbrev pub last_final : InstInfo → Bool
last_final ii = any_final ii.acks ii.last_update_ballot n_of_acceptors 0

count_agreeing_iff :
    (ii : InstInfo)
    → (quorum ≤ (count_agreeing ii).1) ↔ ((quorum ≤ last_votes ii) ⊎ (last_final ii ≡ true))
unfolding count_agreeing
count_agreeing_iff ii = elim (Bool-cases (last_final ii)) [
  | inl final ↦ (
    λ _. inr final,
    λ _. count_acks-final ii.acks ii.last_update_ballot n_of_acceptors 0 _ 0 final,
  )
  | inr plain ↦
      let same =
        count_acks-votes ii.acks ii.last_update_ballot n_of_acceptors 0 (u64_mod - 1) 0 plain in
      (λ h. inl (omega (arith, same)), λ h. ground (arith, same))
]

-- An instance is declared closed exactly when QUORUM of the acceptors have an acknowledgement at
-- the ballot stored last, or one of these says that its value is final.
pub lea_check_quorum_iff :
    (ii : InstInfo) (highest : ℕ)
    → ((lea_check_quorum ii highest).0 ≡ true) ↔ ((quorum ≤ last_votes ii) ⊎ (last_final ii ≡ true))
unfolding lea_check_quorum
lea_check_quorum_iff ii highest = elim (Bool-cases (leb quorum (count_agreeing ii).1)) [
  | inl e ↦ rw e ((λ _. (count_agreeing_iff ii).0 (leb→le _ _ e)), (λ _. refl))
  | inr e ↦
      rw e ((λ h. cc), (λ h. absurd (omega (arith, (count_agreeing_iff ii).1 h, not-leb→lt _ _ e))))
]

count_agreeing-Found : (ii : InstInfo) → Found ii.acks ii.last_update_ballot (count_agreeing ii)
unfolding count_agreeing
count_agreeing-Found ii =
    count_acks-Found ii.acks ii.last_update_ballot n_of_acceptors 0 (u64_mod - 1) 0 (inl refl)

counted :
    (ii : InstInfo) (highest : ℕ)
    → (lea_check_quorum ii highest).0 ≡ true
    → leb quorum (count_agreeing ii).1 ≡ true
unfolding lea_check_quorum
counted ii highest h = elim (Bool-cases (leb quorum (count_agreeing ii).1)) [
  | inl e ↦ e
  | inr e ↦ absurd (let k = rw e at h in cc)
]

-- Then the final value is an acknowledgement of the record, at that ballot; nothing else of the
-- record changes. Otherwise nothing changes at all.
pub lea_check_quorum-closed :
    (ii : InstInfo) (highest : ℕ)
    → (lea_check_quorum ii highest).0 ≡ true
    → (aa : AcceptAck) × ((lea_check_quorum ii highest).1 ≡ record ii { final_value = some aa })
      × Points ii.acks ii.last_update_ballot (count_agreeing ii).0 aa
unfolding lea_check_quorum
lea_check_quorum-closed ii highest h =
    let e = counted ii highest h in
    elim (count_agreeing-Found ii) [
      | inl z ↦ absurd (omega (arith, leb→le _ _ e, z))
      | inr (aa, p) ↦ (aa, rw (e, p.stored), p)
    ]

pub lea_check_quorum-open :
    (ii : InstInfo) (highest : ℕ)
    → (lea_check_quorum ii highest).0 ≡ false
    → lea_check_quorum ii highest ≡ (false, ii, highest)
unfolding lea_check_quorum
lea_check_quorum-open ii highest h = ground arith
