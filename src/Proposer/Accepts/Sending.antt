-- ===== src/Proposer/Accepts/Sending.antt =====
-- lib/proposer_leader.c: the accept request of an instance that is ready keeps what holds of them all.
use libpaxos.Base.{
  ℕ, ◌≡◌, inl, inr, sym, ◌∙◌, ap, true, ◌==◌, ==_refl, arith, update, Bool-cases, List,
}
use libpaxos.Messages.{Item, AcceptReq}
use libpaxos.SendBuf.{SendBuf}
use libpaxos.Proposer.{Instance, slot}
use libpaxos.Proposer.Accepts.{HasIssued, Adds}
use libpaxos.Proposer.Accepts.Slots.{Slots, IsHeld, IsPhase2, Behind, Slots-keep, request}

request_lem : (r r' : AcceptReq) → Item.accept_req r ≡ Item.accept_req r' → r ≡ r'
request_lem r r' h = cc

module _ {id n top : ℕ} {state : ℕ → Instance} {sb : SendBuf} where
  -- The accept request of an instance that is ready is behind it, and behind no other; and no
  -- request before has its number and its ballot.
  Behind-new :
      (i : ℕ) (ii : Instance) (ar : AcceptReq)
      → IsHeld (state i)
      → ar.iid ≡ (state i).iid
      → ar.ballot ≡ ii.my_ballot
      → IsPhase2 ii
      → Slots id n top state sb
      → (j : ℕ) → Behind ar (update state i ii j)
  Behind-new i ii ar held e e' later g j = elim (Bool-cases (i == j)) [
    | inl same ↦ rw same (λ h x. (omega (arith, e'), λ y. later))
    | inr other ↦ rw other (λ h x.
        let same : (state j).iid ≡ (state i).iid = x ∙ e in
        let k : i ≡ j = sym (g.placed i held).0 ∙ sym (ap slot same) ∙ (g.placed j h).0 in
        absurd (let t : (i == j) ≡ true = rw k (==_refl j) in cc))
  ]

  no_other :
      (i : ℕ) (ar : AcceptReq)
      → IsHeld (state i)
      → ¬ IsPhase2 (state i)
      → HasIssued sb ar
      → ar.iid ≡ (state i).iid
      → ar.ballot ≡ (state i).my_ballot
      → Slots id n top state sb
      → ⊥
  no_other i ar held ready issued e e' g = ready ((g.behind ar issued i held (sym e)).1 e')

  -- An instance that is ready sends its accept request.
  pub Slots-accept :
      (i : ℕ) (ii : Instance) (value : List ℕ) (sb' : SendBuf)
      → IsHeld (state i)
      → ¬ IsPhase2 (state i)
      → ii.iid ≡ (state i).iid
      → ii.my_ballot ≡ (state i).my_ballot
      → IsPhase2 ii
      → Adds sb (Item.accept_req (request (state i) value)) sb'
      → Slots id n top state sb
      → Slots id n top (update state i ii) sb'
  Slots-accept i ii value sb' held ready e e' later adds g =
      let kept = Slots-keep i ii e e' (λ h. held) (λ h. later) g in
      let new = request (state i) value in
      record {
        placed = kept.placed;
        opened = λ ar h. elim (adds ar h) [
          | inl before ↦ g.opened ar before
          | inr it ↦ rw (sym (request_lem new ar it)) (g.placed i held).1
        ];
        own = λ ar h. elim (adds ar h) [
          | inl before ↦ g.own ar before
          | inr it ↦ rw (sym (request_lem new ar it)) (g.placed i held).2
        ];
        behind = λ ar h j. elim (adds ar h) [
          | inl before ↦ kept.behind ar before j
          | inr it ↦
              Behind-new i ii ar held (ap (λ r. r.iid) (sym (request_lem new ar it)))
                (ap (λ r. r.ballot) (sym (request_lem new ar it)) ∙ sym e') later g j
        ];
        one_value = λ ar ar' h h' same same'. elim (adds ar h) [
          | inl before ↦ elim (adds ar' h') [
            | inl before' ↦ g.one_value ar ar' before before' same same'
            | inr it' ↦
                let q = sym (request_lem new ar' it') in
                absurd (
                  no_other i ar held ready before (same ∙ ap (λ r. r.iid) q)
                    (same' ∙ ap (λ r. r.ballot) q) g)
          ]
          | inr it ↦ elim (adds ar' h') [
            | inl before' ↦
                let q = sym (request_lem new ar it) in
                absurd (
                  no_other i ar' held ready before' (sym same ∙ ap (λ r. r.iid) q)
                    (sym same' ∙ ap (λ r. r.ballot) q) g)
            | inr it' ↦ ap (λ r. r.value) (sym (request_lem new ar it) ∙ request_lem new ar' it')
          ]
        ];
      }
