-- ===== src/Acceptor/Table.antt =====
-- The specification of an acceptor: a table of records and the highest instance accepted, without
-- storage, transactions or messages. A step returns the answers that it sends.
use libpaxos.Base.{ℕ, ◌<◌, false, ◌||◌, Option, none, some, List, [], ◌∷◌, ◌++◌}
use libpaxos.Base.{◌≡◌, ◌≢◌, inl, inr, refl, ltb, leb, ==_refl, if◌then◌else◌, length, update}
use libpaxos.Base.{Bool-cases, Option-cases, arith}
use libpaxos.Messages.{PrepareReq, AcceptReq, AcceptorRecord, Item}
use libpaxos.Storage.Laws.{IsKeyed}

pub record Ideal : Type 0 where
  pub records : ℕ → Option AcceptorRecord
  pub highest : ℕ

-- The length of a value whose acknowledgement fits a message.
abbrev pub small_value : ℕ
small_value = 7448

abbrev pub IsSmall : (ℕ → Option AcceptorRecord) → Type 0
IsSmall m = (i : ℕ) (rec : AcceptorRecord) → m i ≡ some rec → length rec.value < small_value

-- The records stand under their instances, their values fit a message, and the highest instance
-- accepted (0 for none) has a record.
pub record IsIdeal (t : Ideal) : Type 0 where
  pub keyed : IsKeyed t.records
  pub small : IsSmall t.records
  pub latest : t.highest ≢ 0 → t.records t.highest ≢ none

-- A promise answers with the value accepted before, if any, and the ballot of that.
abbrev pub promise_item : AcceptorRecord → Item
promise_item rec = Item.prepare_ack record {
  iid = rec.iid;
  ballot = rec.ballot;
  value_ballot = rec.value_ballot;
  value = rec.value;
}

-- A promise is given for a ballot above all seen, unless the value is final.
unfoldable pub promise : PrepareReq → Option AcceptorRecord → Option AcceptorRecord
promise pr none =
    some
      (record { iid = pr.iid; ballot = pr.ballot; value_ballot = 0; is_final = false; value = [] })
promise pr (some rec) =
    if leb pr.ballot rec.ballot || rec.is_final
    then none
    else some (record rec { ballot = pr.ballot })

abbrev pub accepted : AcceptReq → AcceptorRecord
accepted ar = record {
  iid = ar.iid;
  ballot = ar.ballot;
  value_ballot = ar.ballot;
  is_final = false;
  value = ar.value;
}

-- As the code has it, a request is accepted at any ballot up to that of the record.
unfoldable pub acceptance : AcceptReq → Option AcceptorRecord → Option AcceptorRecord
acceptance ar none = some (accepted ar)
acceptance ar (some rec) = if leb ar.ballot rec.ballot then some (accepted ar) else none

abbrev pub put_record : ℕ → Option AcceptorRecord → Ideal → Ideal
put_record iid none t = t
put_record iid (some rec) t = record t { records = update t.records iid (some rec) }

abbrev pub answer : (AcceptorRecord → Item) → Option AcceptorRecord → List Item
answer f none = []
answer f (some rec) = f rec ∷ []

abbrev pub prepare_step : PrepareReq → Ideal → Ideal × List Item
prepare_step pr t =
    let r = promise pr (t.records pr.iid) in (put_record pr.iid r t, answer promise_item r)

abbrev pub raise_highest : ℕ → Option AcceptorRecord → Ideal → Ideal
raise_highest iid none t = t
raise_highest iid (some rec) t = record t { highest = if ltb t.highest iid then iid else t.highest }

abbrev pub accept_step : AcceptReq → Ideal → Ideal × List Item
accept_step ar t =
    let r = acceptance ar (t.records ar.iid) in
    (raise_highest ar.iid r (put_record ar.iid r t), answer Item.accept_ack r)

-- A repeat changes nothing, and answers with the record if it has a value.
abbrev pub with_value : Option AcceptorRecord → Option AcceptorRecord
with_value none = none
with_value (some rec) = if ltb 0 (length rec.value) then some rec else none

abbrev pub repeat_step : ℕ → Ideal → Ideal × List Item
repeat_step iid t = (t, answer Item.accept_ack (with_value (t.records iid)))

-- A batch is its steps in order.
unfoldable pub steps {ℓ} :
    {X : Type ℓ} → (X → Ideal → Ideal × List Item) → List X → Ideal → Ideal × List Item
steps f [] t = (t, [])
steps f (x ∷ xs) t = let (t', ys) = f x t in let (t'', zs) = steps f xs t' in (t'', ys ++ zs)

pub put_record-IsIdeal :
    (iid : ℕ) (rec : AcceptorRecord) (t : Ideal)
    → rec.iid ≡ iid
    → length rec.value < small_value
    → IsIdeal t
    → IsIdeal (put_record iid (some rec) t)
put_record-IsIdeal iid rec t e s v = record {
  keyed = λ i r h. ground (arith, v.keyed i r);
  small = λ i r h. ground (arith, v.small i r);
  latest = λ n h. ground (arith, v.latest n);
}

-- A promise keeps the instance and the value of the record; a new one has no value.
pub promise-keeps :
    (pr : PrepareReq) (o : Option AcceptorRecord) (r : AcceptorRecord)
    → ((rec : AcceptorRecord)
        → o ≡ some rec
        → (rec.iid ≡ pr.iid) × (length rec.value < small_value))
    → promise pr o ≡ some r
    → (r.iid ≡ pr.iid) × (length r.value < small_value)
unfolding promise
promise-keeps pr none r h e = ground arith
promise-keeps pr (some rec) r h e = ground (arith, h rec refl)

pub prepare_step-IsIdeal : (pr : PrepareReq) (t : Ideal) → IsIdeal t → IsIdeal (prepare_step pr t).0
prepare_step-IsIdeal pr t v = elim (Option-cases (promise pr (t.records pr.iid))) [
  | inl e ↦ rw e v
  | inr (r, e) ↦
      let old : (rec : AcceptorRecord)
          → t.records pr.iid ≡ some rec
          → (rec.iid ≡ pr.iid) × (length rec.value < small_value) =
        λ rec q. (v.keyed pr.iid rec q, v.small pr.iid rec q) in
      let k = promise-keeps pr (t.records pr.iid) r old e in
      rw e (put_record-IsIdeal pr.iid r t k.0 k.1 v)
]

pub acceptance-accepted :
    (ar : AcceptReq) (o : Option AcceptorRecord) (r : AcceptorRecord)
    → acceptance ar o ≡ some r
    → r ≡ accepted ar
unfolding acceptance
acceptance-accepted ar none r e = ground arith
acceptance-accepted ar (some rec) r e = ground arith

raise_highest-IsIdeal :
    (iid : ℕ) (rec : AcceptorRecord) (t : Ideal)
    → t.records iid ≡ some rec
    → IsIdeal t
    → IsIdeal (raise_highest iid (some rec) t)
raise_highest-IsIdeal iid rec t e v = record {
  keyed = v.keyed;
  small = v.small;
  latest = elim (Bool-cases (ltb t.highest iid)) [
    | inl up ↦ rw up (λ n h. absurd (cc))
    | inr stay ↦ rw stay v.latest
  ];
}

pub accept_step-IsIdeal :
    (ar : AcceptReq) (t : Ideal)
    → length ar.value < small_value
    → IsIdeal t
    → IsIdeal (accept_step ar t).0
accept_step-IsIdeal ar t s v = elim (Option-cases (acceptance ar (t.records ar.iid))) [
  | inl e ↦ rw e v
  | inr (r, e) ↦
      let q = acceptance-accepted ar (t.records ar.iid) r e in
      let put = put_record-IsIdeal ar.iid (accepted ar) t refl s v in
      rw (e, q)
        (raise_highest-IsIdeal ar.iid (accepted ar) (put_record ar.iid (some (accepted ar)) t)
          (rw (==_refl ar.iid)) put)
]
