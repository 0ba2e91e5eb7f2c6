-- ===== src/Proposer/Choice.antt =====
-- What a proposer keeps of the promises, and how it counts them.
use libpaxos.Base.{ℕ, ◌+◌, ◌%◌, ◌≤◌, ◌<◌, ◌≡◌, ◌≢◌, ◌⊎◌, inl, inr, true, false, some, arith}
use libpaxos.Base.{List, [], ◌∷◌, All, Any, refl, length, ap, Bool-cases}
use libpaxos.Base.{bytes_eq, bytes_eq-eq, Option-cases, ◌==◌, ==_iff, ◌∙◌}
use libpaxos.Base.{==_refl, ltb, ◌+◌}
use libpaxos.Config.{u32_mod, quorum}
use libpaxos.Messages.{PrepareAck}
use libpaxos.Proposer.{Status, Instance, Proposer, instance_of, set_instance, slot, has_status}
use libpaxos.Proposer.{status_number}
use libpaxos.Proposer.Promises.{
  masked, save_promised_value, pro_save_prepare_ack, handle_prepare_ack,
}
use libpaxos.Proposer.Promises.{handle_prepare_acks}

-- Promises with their senders, saved one after another.
abbrev pub save_all : Instance → List (PrepareAck × ℕ) → Instance
save_all ii [] = ii
save_all ii ((pa, acceptor_id) ∷ ps) = save_all (pro_save_prepare_ack ii pa acceptor_id) ps

-- The promise is the one whose value is kept.
abbrev pub IsKept : Instance → PrepareAck → Type 0
IsKept r pa =
    (length pa.value ≢ 0) × (r.p1_value ≡ some pa.value) × (r.p1_value_ballot ≡ pa.value_ballot)

-- How one saved promise changes what is kept.
abbrev Chooses : Instance → PrepareAck → Instance → Type 0
Chooses ii pa r =
    (ii.p1_value_ballot ≤ r.p1_value_ballot)
    × (length pa.value ≢ 0 → pa.value_ballot ≤ r.p1_value_ballot)
    × (((r.p1_value ≡ ii.p1_value) × (r.p1_value_ballot ≡ ii.p1_value_ballot))
        ⊎ (IsKept r pa × (ii.p1_value_ballot < r.p1_value_ballot)))

save_promised_value_lem :
    (ii : Instance) (pa : PrepareAck) → Chooses ii pa (save_promised_value ii pa)
unfolding save_promised_value
save_promised_value_lem ii pa = elim (Option-cases ii.p1_value) [
  | inl e ↦ rw e (ground arith)
  | inr (v, e) ↦ rw e (elim (Bool-cases (bytes_eq v pa.value)) [
    | inl same ↦ let eq = bytes_eq-eq v pa.value same in rw same (ground arith)
    | inr differ ↦ rw differ (ground arith)
  ])
]

-- A promise that is counted: the fields that do not depend on its value.
Counts : Instance → Instance → Type 0
Counts ii r =
    (r.promises_bitvector ≡ 0)
    × (r.promises_count ≡ (ii.promises_count + 1) % u32_mod)
    × (r.status ≡ ii.status)
    × (r.my_ballot ≡ ii.my_ballot)

save_promised_value-kept :
    (ii : Instance) (pa : PrepareAck)
    → let r = save_promised_value ii pa in
      (r.promises_bitvector ≡ ii.promises_bitvector)
      × (r.promises_count ≡ ii.promises_count)
      × (r.status ≡ ii.status)
      × (r.my_ballot ≡ ii.my_ballot)
unfolding save_promised_value
save_promised_value-kept ii pa = ground arith

pro_save_prepare_ack_lem :
    (ii : Instance) (pa : PrepareAck) (acceptor_id : ℕ)
    → ii.promises_bitvector ≡ 0
    → Counts ii (pro_save_prepare_ack ii pa acceptor_id)
      × Chooses ii pa (pro_save_prepare_ack ii pa acceptor_id)
unfolding pro_save_prepare_ack Counts
pro_save_prepare_ack_lem ii pa acceptor_id z =
    let clear : masked ii.promises_bitvector acceptor_id ≡ 0 = ground arith in
    let counted : Instance = record ii {
      promises_bitvector = masked ii.promises_bitvector acceptor_id;
      promises_count = (ii.promises_count + 1) % u32_mod;
    } in
    let kept = save_promised_value-kept counted pa in
    let test : (masked ii.promises_bitvector acceptor_id == 0) ≡ true =
      (==_iff (masked ii.promises_bitvector acceptor_id) 0).1 clear in
    rw test ((kept.0 ∙ clear, kept.1, kept.2, kept.3), save_promised_value_lem counted pa)

-- What is kept of a list of promises.
abbrev pub IsHighest : Instance → List (PrepareAck × ℕ) → Instance → Type 0
IsHighest ii ps r =
    (ii.p1_value_ballot ≤ r.p1_value_ballot)
    × All (λ p. length p.0.value ≢ 0 → p.0.value_ballot ≤ r.p1_value_ballot) ps
    × (((r.p1_value ≡ ii.p1_value) × (r.p1_value_ballot ≡ ii.p1_value_ballot))
        ⊎ (Any (λ p. IsKept r p.0) ps × (ii.p1_value_ballot < r.p1_value_ballot)))

chain :
    (ii m r : Instance) (pa : PrepareAck) (acceptor_id : ℕ) (ps : List (PrepareAck × ℕ))
    → Chooses ii pa m
    → IsHighest m ps r
    → IsHighest ii ((pa, acceptor_id) ∷ ps) r
chain ii m r pa acceptor_id ps (up, top, from) (up', top', from') = (
  omega (arith, up, up'),
  (λ ne. omega (arith, top ne, up'), top'),
  elim from' [
    | inr (any, higher) ↦ inr (Any.there any, omega (arith, up, higher))
    | inl (same, at) ↦ elim from [
      | inl (same0, at0) ↦ inl (same ∙ same0, at ∙ at0)
      | inr ((ne, value, ballot), higher) ↦
          inr (Any.here (ne, same ∙ value, at ∙ ballot), omega (arith, at, higher))
    ]
  ],
)

stay_clear : (ii m : Instance) → Counts ii m → m.promises_bitvector ≡ 0
unfolding Counts
stay_clear ii m c = c.0

-- From clear bits, the value kept of any promises is that of a promise with the highest ballot of
-- acceptance among those with a value and what was kept before, which is replaced only where a
-- ballot is strictly higher.
pub save_all-IsHighest :
    (ii : Instance) (ps : List (PrepareAck × ℕ))
    → ii.promises_bitvector ≡ 0
    → IsHighest ii ps (save_all ii ps)
save_all-IsHighest ii [] z = (omega arith, tt, inl (refl, refl))
save_all-IsHighest ii ((pa, acceptor_id) ∷ ps) z =
    let m = pro_save_prepare_ack ii pa acceptor_id in
    let (counts, chooses) = pro_save_prepare_ack_lem ii pa acceptor_id z in
    chain ii m (save_all m ps) pa acceptor_id ps chooses
      (save_all-IsHighest m ps (stay_clear ii m counts))

pro_save_prepare_ack-kept :
    (ii : Instance) (pa : PrepareAck) (acceptor_id : ℕ)
    → ii.promises_bitvector ≡ 0
    → let r = pro_save_prepare_ack ii pa acceptor_id in
      (r.promises_bitvector ≡ 0)
      × (r.promises_count ≡ (ii.promises_count + 1) % u32_mod)
      × (r.status ≡ ii.status)
      × (r.my_ballot ≡ ii.my_ballot)
unfolding Counts
pro_save_prepare_ack-kept ii pa acceptor_id z = (pro_save_prepare_ack_lem ii pa acceptor_id z).0

-- A promise for a pending instance and its ballot, as `handle_prepare_ack` finds it.
abbrev pub IsAwaited : Proposer → PrepareAck → Type 0
IsAwaited s pa =
    ((instance_of s pa.iid).status ≡ Status.p1_pending)
    × ((instance_of s pa.iid).my_ballot ≡ pa.ballot)
    × ((instance_of s pa.iid).promises_bitvector ≡ 0)

handle_prepare_ack-counts :
    (pa : PrepareAck) (acceptor_id : ℕ) (s : Proposer)
    → IsAwaited s pa
    → ((instance_of s pa.iid).promises_count ≡ 0
        → handle_prepare_ack pa acceptor_id s ≡ (
          false,
          set_instance s pa.iid (pro_save_prepare_ack (instance_of s pa.iid) pa acceptor_id),
        ))
      × ((instance_of s pa.iid).promises_count ≡ 1 → (handle_prepare_ack pa acceptor_id s).0 ≡ true)
unfolding handle_prepare_ack
handle_prepare_ack-counts pa acceptor_id s (pending, ballot, bits) =
    let ii : Instance = instance_of s pa.iid in
    let ii' : Instance = pro_save_prepare_ack ii pa acceptor_id in
    let is_pending : has_status ii Status.p1_pending ≡ true =
      ap (λ st. status_number st == 1) pending in
    let is_mine : (pa.ballot == ii.my_ballot) ≡ true = ground arith in
    let count = (pro_save_prepare_ack-kept ii pa acceptor_id bits).1 in
    (
      λ none_yet.
          let low : ltb ii'.promises_count quorum ≡ true = ground arith in
          rw (is_pending, is_mine, low) refl,
      λ one.
          let enough : ltb ii'.promises_count quorum ≡ false = ground arith in
          rw (is_pending, is_mine, enough) refl,
    )

-- Two copies of the same promise, from the same acceptor, complete phase 1 of an instance that
-- awaits it, has clear bits and no promise yet: the quorum is one acceptor.
pub one_acceptor_is_a_quorum :
    (pa : PrepareAck) (acceptor_id : ℕ) (s : Proposer)
    → IsAwaited s pa
    → (instance_of s pa.iid).promises_count ≡ 0
    → (handle_prepare_acks acceptor_id (pa ∷ pa ∷ []) s).0 ≡ 1
unfolding handle_prepare_acks
one_acceptor_is_a_quorum pa acceptor_id s awaited none_yet =
    let ii : Instance = instance_of s pa.iid in
    let ii' : Instance = pro_save_prepare_ack ii pa acceptor_id in
    let s' : Proposer = set_instance s pa.iid ii' in
    let here : (slot pa.iid == slot pa.iid) ≡ true = ==_refl (slot pa.iid) in
    let kept = pro_save_prepare_ack-kept ii pa acceptor_id awaited.2 in
    let first = (handle_prepare_ack-counts pa acceptor_id s awaited).0 none_yet in
    let again : IsAwaited s' pa = rw here (kept.2 ∙ awaited.0, kept.3 ∙ awaited.1, kept.0) in
    let second : (handle_prepare_ack pa acceptor_id s').0 ≡ true =
      (handle_prepare_ack-counts pa acceptor_id s' again).1
        (rw here (kept.1 ∙ ap (λ n. (n + 1) % u32_mod) none_yet)) in
    rw (first, second) refl
