-- ===== src/Learner/Holes.antt =====
-- `lea_hole_check`: which instances the acceptors are asked to repeat.
use libpaxos.Base.{ℕ, zero, suc, ◌+◌, ◌-◌, ◌%◌, some, List, [], ◌∷◌, ◌++◌}
use libpaxos.Base.{
  ◌≡◌, ◌≢◌, ==_iff, ◌==◌, true, false, ◌&&◌, ◌∙◌, refl, ◌>>=◌, All, if◌then◌else◌, ltb, Bool-cases,
  inl, inr, append-nil, sym, arith, ap, fun_ext, not-ltb→le,
}
use libpaxos.Config.{u64_mod, learner_array_size}
use libpaxos.Messages.{MsgCode, Item}
use libpaxos.SendBuf.{SendBuf, no_sender, sendbuf_add_repeat_req, sendbuf_clear, sendbuf_flush}
use libpaxos.SendBuf.Batches.{packed, IsFit, Fits, add_all, batch_lem}
use libpaxos.Learner.{
  learner_is_closed, Learner, instance_of, is_closed, request_open, lea_send_repeat_request,
}
use libpaxos.Learner.{lea_hole_check}

-- The requests for the instances `i`, `i + 1`, … whose records hold no closed one, for so many
-- instances. An instance beyond the window has the record of another.
abbrev pub open_requests : Learner → ℕ → ℕ → List Item
open_requests s zero i = []
open_requests s (suc n) i =
    if is_closed (instance_of s i)
    then open_requests s n (i + 1)
    else Item.repeat_req i ∷ open_requests s n (i + 1)

-- Up to where the check asks: everything seen, if the learner lags by more than its window, and
-- everything closed otherwise.
abbrev pub asked_to : Learner → ℕ
asked_to s =
    if ltb ((s.current_iid + learner_array_size) % u64_mod) s.highest_iid_seen
    then s.highest_iid_seen
    else s.highest_iid_closed

open_requests-Fits : (s : Learner) (n i : ℕ) → All (Fits MsgCode.repeat_reqs) (open_requests s n i)
open_requests-Fits s zero i = tt
open_requests-Fits s (suc n) i = elim (Bool-cases (is_closed (instance_of s i))) [
  | inl e ↦ rw e (open_requests-Fits s n (i + 1))
  | inr e ↦ rw e (omega arith, open_requests-Fits s n (i + 1))
]

request_open-add_all :
    (s : Learner) (n i : ℕ) (sb : SendBuf)
    → request_open s n i sb ≡ add_all MsgCode.repeat_reqs no_sender sb (open_requests s n i)
unfolding request_open add_all sendbuf_add_repeat_req
request_open-add_all s zero i sb = refl
request_open-add_all s (suc n) i sb = elim (Bool-cases (is_closed (instance_of s i))) [
  | inl e ↦ rw e (request_open-add_all s n (i + 1) sb)
  | inr e ↦ rw e (
      ap (λ k. sendbuf_add_repeat_req sb i >>= k)
        (fun_ext (λ sb'. request_open-add_all s n (i + 1) sb')))
]

lea_send_repeat_request_lem :
    (s : Learner) (from to : ℕ)
    → All IsFit s.to_acceptors.sent
    → (sb : SendBuf) × (lea_send_repeat_request s from to ≡ some (record s { to_acceptors = sb }))
      × (packed sb.sent ≡ packed s.to_acceptors.sent ++ open_requests s (to - from) from)
      × All IsFit sb.sent
unfolding lea_send_repeat_request
lea_send_repeat_request_lem s from to f =
    let xs = open_requests s (to - from) from in
    let b = s.to_acceptors in
    let (sb, e, p, g) =
      batch_lem MsgCode.repeat_reqs no_sender b xs f (open_requests-Fits s (to - from) from) in
    (
      sendbuf_flush sb,
      rw (
        request_open-add_all s (to - from) from (sendbuf_clear b MsgCode.repeat_reqs no_sender),
        e,
      ),
      p,
      g,
    )

-- The requests for those of the instances that are not closed, as the proposer tests it.
abbrev pub missing : Learner → ℕ → ℕ → List Item
missing s zero i = []
missing s (suc n) i =
    if learner_is_closed s i then missing s n (i + 1) else Item.repeat_req i ∷ missing s n (i + 1)

-- They agree where each closed instance is in its own record.
open_requests-missing :
    (s : Learner) (n i : ℕ)
    → ((k : ℕ) → is_closed (instance_of s (i + k)) ≡ true → (instance_of s (i + k)).iid ≡ i + k)
    → open_requests s n i ≡ missing s n i
unfolding learner_is_closed
open_requests-missing s zero i own = refl
open_requests-missing s (suc n) i own =
    let later =
      open_requests-missing s n (i + 1)
        (λ k h. let e : i + 1 + k ≡ i + (k + 1) = omega arith in rw e (own (k + 1) (rw e at h))) in
    elim (Bool-cases (is_closed (instance_of s i))) [
      | inl e ↦
          let z : i + 0 ≡ i = omega arith in
          let at : (instance_of s i).iid ≡ i = rw z at (own 0 (rw z e)) in
          let same : (i == (instance_of s i).iid) ≡ true = ground (arith, at) in rw (e, same) later
      | inr e ↦
          let no : (i == (instance_of s i).iid) && false ≡ false = ground arith in
          rw (e, no) (ap (λ xs. Item.repeat_req i ∷ xs) later)
    ]

-- An instance whose record holds a closed one is not asked for.
open_requests-leaves :
    (s : Learner) (j : ℕ)
    → is_closed (instance_of s j) ≡ true
    → (n i : ℕ) → All (λ x. x ≢ Item.repeat_req j) (open_requests s n i)
open_requests-leaves s j h zero i = tt
open_requests-leaves s j h (suc n) i = elim (Bool-cases (is_closed (instance_of s i))) [
  | inl e ↦ rw e (open_requests-leaves s j h n (i + 1))
  | inr e ↦ rw e (
    (λ same. let k : i ≡ j = cc in absurd (let no : false ≡ true = sym (rw k at e) ∙ h in cc)),
    open_requests-leaves s j h n (i + 1),
  )
]

hole_check_sends :
    (s : Learner)
    → All IsFit s.to_acceptors.sent
    → (sb : SendBuf) × (lea_hole_check s ≡ some (record s { to_acceptors = sb }))
      × (packed sb.sent
          ≡ packed s.to_acceptors.sent
            ++ open_requests s (asked_to s - s.current_iid) s.current_iid)
      × All IsFit sb.sent
unfolding lea_hole_check
hole_check_sends s f =
    elim (Bool-cases (ltb ((s.current_iid + learner_array_size) % u64_mod) s.highest_iid_seen)) [
      | inl lags ↦ rw lags (lea_send_repeat_request_lem s s.current_iid s.highest_iid_seen f)
      | inr near ↦ elim (Bool-cases (ltb s.current_iid s.highest_iid_closed)) [
        | inl hole ↦
            rw (near, hole) (lea_send_repeat_request_lem s s.current_iid s.highest_iid_closed f)
        | inr closed ↦
            let z : s.highest_iid_closed - s.current_iid ≡ 0 =
              omega (arith, not-ltb→le _ _ closed) in
            rw (near, closed, z)
              (s.to_acceptors, refl, sym (append-nil (packed s.to_acceptors.sent)), f)
      ]
    ]

-- The hole check sends, in datagrams within the size limit, one request for each instance from the
-- current one up to `asked_to` whose record in the array holds no closed instance, in order, and no
-- others; it changes nothing of the learner but its send buffer. Where each closed instance is in
-- its own record, those asked for are the instances that are not closed. An instance whose record
-- holds another one, which is closed, is left out, though it is not closed itself.
pub lea_hole_check_lem :
    (s : Learner)
    → All IsFit s.to_acceptors.sent
    → (sb : SendBuf) × (lea_hole_check s ≡ some (record s { to_acceptors = sb }))
      × (packed sb.sent
          ≡ packed s.to_acceptors.sent
            ++ open_requests s (asked_to s - s.current_iid) s.current_iid)
      × All IsFit sb.sent
      × (((k : ℕ)
            → is_closed (instance_of s (s.current_iid + k)) ≡ true
            → (instance_of s (s.current_iid + k)).iid ≡ s.current_iid + k)
          → open_requests s (asked_to s - s.current_iid) s.current_iid
            ≡ missing s (asked_to s - s.current_iid) s.current_iid)
      × ((i : ℕ)
          → is_closed (instance_of s i) ≡ true
          → (instance_of s i).iid ≢ i
          → (learner_is_closed s i ≡ false)
            × All
                (λ x. x ≢ Item.repeat_req i)
                (open_requests s (asked_to s - s.current_iid) s.current_iid))
unfolding learner_is_closed
lea_hole_check_lem s f =
    let (sb, e, p, g) = hole_check_sends s f in
    (
      sb,
      e,
      p,
      g,
      open_requests-missing s (asked_to s - s.current_iid) s.current_iid,
      λ i h other.
          let differs : (i == (instance_of s i).iid) ≡ false =
            elim (Bool-cases (i == (instance_of s i).iid)) [
              | inl same ↦ absurd (other (sym ((==_iff i (instance_of s i).iid).0 same)))
              | inr distinct ↦ distinct
            ] in
          (rw differs refl, open_requests-leaves s i h (asked_to s - s.current_iid) s.current_iid),
    )
