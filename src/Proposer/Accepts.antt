-- ===== src/Proposer/Accepts.antt =====
-- lib/proposer_leader.c, the accept requests of a proposer: what is in its send buffer and what has
-- left it, and rules for what holds behind a chain of steps.
pub mod Slots
pub mod Sending
pub mod Routines
pub mod Requests
pub mod Reign
pub mod Safety
mod Tests
use libpaxos.Base.{ℕ, zero, suc, ◌+◌, Bool, true, false, Option, none, some, List, [], ◌∷◌, ◌++◌}
use libpaxos.Base.{
  ◌≡◌, ◌⊎◌, inl, inr, refl, Any, Bool-cases, ◌==◌, if◌then◌else◌, ◌>>=◌, ◌>>◌, assert, arith,
}
use libpaxos.Messages.{MsgCode, code, Packet, Item, item_size, AcceptReq}
use libpaxos.SendBuf.{
  SendBuf, is_full, current_packet, sendbuf_clear, sendbuf_flush, make_room, append_item, add_item,
  sendbuf_add_prepare_req, sendbuf_add_accept_req,
}
use libpaxos.Proposer.{Proposer, for_range}

-- What holds of a result, if there is one.
abbrev pub OfResult : {A : Type 0} → (A → Type 0) → Option A → Type 0
OfResult P none = Unit
OfResult P (some a) = P a

pub record Post {A : Type 0} (P : A → Type 0) (o : Option A) : Type 0 where
  pub at : OfResult P o

module _ {A : Type 0} {P : A → Type 0} where
  pub Post-some : (a : A) → P a → Post P (some a)
  Post-some a h = record { at = h }

  pub Post-assert : (b : Bool) (m : Option A) → (b ≡ true → Post P m) → Post P (assert b >> m)
  Post-assert true m k = k refl
  Post-assert false m k = record { at = tt }

  pub Post-if :
      (b : Bool) (m n : Option A)
      → (b ≡ true → Post P m)
      → (b ≡ false → Post P n)
      → Post P (if b then m else n)
  Post-if true m n k l = k refl
  Post-if false m n k l = l refl

module _ {A B : Type 0} {P : A → Type 0} {Q : B → Type 0} where
  pub Post-bind :
      (m : Option A) (f : A → Option B)
      → Post P m
      → ((a : A) → P a → Post Q (f a))
      → Post Q (m >>= f)
  Post-bind none f h k = record { at = tt }
  Post-bind (some a) f h k = k a h.at

pub Post-map :
    {A : Type 0} {P Q : A → Type 0} (m : Option A) → ((a : A) → P a → Q a) → Post P m → Post Q m
Post-map none f h = record { at = tt }
Post-map (some a) f h = record { at = f a h.at }

zero_end : (i : ℕ) → i + 0 ≡ i
zero_end i = omega arith

suc_end : (i n : ℕ) → i + suc n ≡ (i + 1) + n
suc_end i n = omega arith

-- A loop, with an invariant that knows the number of the round.
pub for_range-Post :
    (P : ℕ → Proposer → Type 0) (body : ℕ → Proposer → Option Proposer)
    → ((i : ℕ) (s : Proposer) → P i s → Post (P (i + 1)) (body i s))
    → (rounds i : ℕ) (s : Proposer) → P i s
    → Post (P (i + rounds)) (for_range body rounds i s)
unfolding for_range
for_range-Post P body step zero i s h = Post-some s (rw (zero_end i) h)
for_range-Post P body step (suc rounds) i s h =
    Post-bind (body i s) (for_range body rounds (i + 1)) (step i s h)
      (λ s' h'. rw (suc_end i rounds) (for_range-Post P body step rounds (i + 1) s' h'))

-- The buffer holds the request, or has sent it.
abbrev HasAccept : AcceptReq → List Item → Type 0
HasAccept ar = Any (λ it. it ≡ Item.accept_req ar)

abbrev pub HasSent : SendBuf → AcceptReq → Type 0
HasSent sb ar = Any (λ p. HasAccept ar p.items) sb.sent

abbrev pub HasIssued : SendBuf → AcceptReq → Type 0
HasIssued sb ar = HasAccept ar sb.items ⊎ HasSent sb ar

Any-append : {A : Type 0} {P : A → Type 0} (xs ys : List A) → Any P (xs ++ ys) → Any P xs ⊎ Any P ys
Any-append [] ys h = inr h
Any-append (x ∷ xs) ys (Any.here p) = inl (Any.here p)
Any-append (x ∷ xs) ys (Any.there a) = elim (Any-append xs ys a) [
  | inl l ↦ inl (Any.there l)
  | inr r ↦ inr r
]

Any-single : {A : Type 0} {P : A → Type 0} (x : A) → Any P (x ∷ []) → P x
Any-single x (Any.here p) = p
Any-single x (Any.there a) = elim a [ ]

pub clear-HasIssued :
    (sb : SendBuf) (type : MsgCode) (sender : ℕ) (ar : AcceptReq)
    → HasIssued (sendbuf_clear sb type sender) ar
    → HasIssued sb ar
unfolding sendbuf_clear
clear-HasIssued sb type sender ar (inl a) = elim a [ ]
clear-HasIssued sb type sender ar (inr b) = inr b

pub flush-HasIssued :
    (sb : SendBuf) (ar : AcceptReq) → HasIssued (sendbuf_flush sb) ar → HasIssued sb ar
unfolding sendbuf_flush
flush-HasIssued sb ar h = by_flag sb.dirty h
  where
    by_flag :
        (dirty : Bool)
        → HasIssued
            (if dirty then record sb { sent = sb.sent ++ current_packet sb ∷ [] } else sb)
            ar
        → HasIssued sb ar
    by_flag false h = h
    by_flag true (inl a) = inl a
    by_flag true (inr b) = elim (Any-append sb.sent (current_packet sb ∷ []) b) [
      | inl l ↦ inr l
      | inr r ↦ inl (Any-single (current_packet sb) r)
    ]

make_room-HasIssued :
    (sender : ℕ) (sb : SendBuf) (size : ℕ) (ar : AcceptReq)
    → HasIssued (make_room sender sb size) ar
    → HasIssued sb ar
unfolding make_room
make_room-HasIssued sender sb size ar h = by_size (is_full sb size) h
  where
    by_size :
        (full : Bool)
        → HasIssued (if full then sendbuf_clear (sendbuf_flush sb) sb.type sender else sb) ar
        → HasIssued sb ar
    by_size false h = h
    by_size true h = flush-HasIssued sb ar (clear-HasIssued (sendbuf_flush sb) sb.type sender ar h)

-- Of what a buffer has issued behind an add, only the item is new.
abbrev pub Adds : SendBuf → Item → SendBuf → Type 0
Adds sb it sb' = (ar : AcceptReq) → HasIssued sb' ar → HasIssued sb ar ⊎ (it ≡ Item.accept_req ar)

add_item-Adds :
    (type : MsgCode) (sender : ℕ) (sb : SendBuf) (it : Item)
    → Post (Adds sb it) (add_item type sender sb it)
unfolding add_item append_item
add_item-Adds type sender sb it =
    Post-assert (code sb.type == code type) _ (λ e. Post-some _ (λ ar h. added ar h))
  where
    added :
        (ar : AcceptReq)
        → HasIssued (append_item (make_room sender sb (item_size it)) it) ar
        → HasIssued sb ar ⊎ (it ≡ Item.accept_req ar)
    added ar (inl a) = elim (Any-append (make_room sender sb (item_size it)).items (it ∷ []) a) [
      | inl l ↦ inl (make_room-HasIssued sender sb (item_size it) ar (inl l))
      | inr r ↦ inr (Any-single it r)
    ]
    added ar (inr b) = inl (make_room-HasIssued sender sb (item_size it) ar (inr b))

-- A prepare request is no accept request.
pub prepare-HasIssued :
    (sb : SendBuf) (iid ballot : ℕ)
    → Post
        (λ sb'. (ar : AcceptReq) → HasIssued sb' ar → HasIssued sb ar)
        (sendbuf_add_prepare_req sb iid ballot)
unfolding sendbuf_add_prepare_req
prepare-HasIssued sb iid ballot =
    Post-map {Q = λ sb'. (ar : AcceptReq) → HasIssued sb' ar → HasIssued sb ar}
      (sendbuf_add_prepare_req sb iid ballot)
      (λ sb' k ar h. elim (k ar h) [ inl old ↦ old | inr e ↦ absurd (cc) ])
      (add_item-Adds MsgCode.prepare_reqs sb.sender sb
        (Item.prepare_req (record { iid = iid; ballot = ballot })))

pub accept-HasIssued :
    (sb : SendBuf) (iid ballot : ℕ) (value : List ℕ)
    → Post
        (Adds sb (Item.accept_req (record { iid = iid; ballot = ballot; value = value })))
        (sendbuf_add_accept_req sb iid ballot value)
unfolding sendbuf_add_accept_req
accept-HasIssued sb iid ballot value =
    add_item-Adds MsgCode.accept_reqs sb.sender sb
      (Item.accept_req (record { iid = iid; ballot = ballot; value = value }))
