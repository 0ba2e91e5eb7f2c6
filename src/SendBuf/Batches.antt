-- ===== src/SendBuf/Batches.antt =====
-- The items that a buffer has been given, against those in the datagrams that it sends.
use libpaxos.Base.{ℕ, ◌+◌, ◌≤◌, ◌<◌, false, Option, some, List, [], ◌∷◌, ◌++◌}
use libpaxos.Base.{◌>>=◌, All, All-append, arith}
use libpaxos.Base.{◌≡◌, refl, sym, ap, ◌∙◌, append_assoc, append-nil, ==_refl, Bool-cases, inl, inr}
use libpaxos.Config.{max_udp_msg_size}
use libpaxos.Messages.{MsgCode, code, paxos_msg_size, Packet, Item, item_size}
use libpaxos.SendBuf.{SendBuf, sendbuf_clear, sendbuf_flush, make_room, append_item, add_item}
use libpaxos.SendBuf.{batch_header, is_full, current_packet}

-- The items of the datagrams, in order.
abbrev pub packed : List Packet → List Item
packed [] = []
packed (p ∷ ps) = p.items ++ packed ps

-- The bytes of a list of items.
abbrev pub items_size : List Item → ℕ
items_size [] = 0
items_size (x ∷ xs) = item_size x + items_size xs

-- A datagram whose declared size is that of its header and items, within the limit.
pub record IsFit (p : Packet) : Type 0 where
  pub sized : p.data_size ≡ batch_header p.type + items_size p.items
  pub bounded : paxos_msg_size p.data_size < max_udp_msg_size

-- A buffer between two calls.
pub record IsOpen (type : MsgCode) (sb : SendBuf) : Type 0 where
  pub typed : sb.type ≡ type
  pub sized : sb.data_size ≡ batch_header sb.type + items_size sb.items
  pub bounded : paxos_msg_size sb.data_size < max_udp_msg_size
  pub clean : sb.dirty ≡ false → sb.items ≡ []
  pub fits : All IsFit sb.sent

-- The item fits into an empty message.
abbrev pub Fits : MsgCode → Item → Type 0
Fits type it = paxos_msg_size (batch_header type + item_size it) < max_udp_msg_size

-- What was sent, and what waits in the buffer.
abbrev pub added : SendBuf → List Item
added sb = packed sb.sent ++ sb.items

pub packed-append : (ps qs : List Packet) → packed (ps ++ qs) ≡ packed ps ++ packed qs
packed-append [] qs = refl
packed-append (p ∷ ps) qs = simp (packed-append ps qs, append_assoc)

pub items_size-append : (xs ys : List Item) → items_size (xs ++ ys) ≡ items_size xs + items_size ys
items_size-append [] ys = omega arith
items_size-append (x ∷ xs) ys = omega (arith, items_size-append xs ys)

pub batch_header-le : (t : MsgCode) → batch_header t ≤ 8
batch_header-le MsgCode.prepare_reqs = omega arith
batch_header-le _ = omega arith

pub sendbuf_clear-IsOpen :
    (type t : MsgCode) (sender : ℕ) (sb : SendBuf)
    → t ≡ type
    → All IsFit sb.sent
    → IsOpen type (sendbuf_clear sb t sender)
unfolding sendbuf_clear
sendbuf_clear-IsOpen type t sender sb e h = record {
  typed = e;
  sized = omega arith;
  bounded = omega (arith, batch_header-le t);
  clean = λ _. refl;
  fits = h;
}

pub sendbuf_flush-fits :
    {type : MsgCode} (sb : SendBuf) → IsOpen type sb → All IsFit (sendbuf_flush sb).sent
unfolding sendbuf_flush
sendbuf_flush-fits sb o = elim (Bool-cases sb.dirty) [
  | inl e ↦ rw e (
      All-append IsFit sb.sent (current_packet sb ∷ []) o.fits
        (record { sized = o.sized; bounded = o.bounded }, tt))
  | inr e ↦ rw e o.fits
]

-- After a flush all that was added is in the datagrams.
pub packed-sendbuf_flush :
    {type : MsgCode} (sb : SendBuf) → IsOpen type sb → packed (sendbuf_flush sb).sent ≡ added sb
unfolding sendbuf_flush
packed-sendbuf_flush sb o = elim (Bool-cases sb.dirty) [
  | inl e ↦ rw e (simp (packed-append, append-nil))
  | inr e ↦ rw (e, o.clean e) (simp append-nil)
]

-- Making room loses nothing, and leaves room.
pub make_room_lem :
    (type : MsgCode) (sender : ℕ) (sb : SendBuf) (it : Item)
    → Fits type it
    → IsOpen type sb
    → IsOpen type (make_room sender sb (item_size it))
      × (added (make_room sender sb (item_size it)) ≡ added sb)
      × (paxos_msg_size (make_room sender sb (item_size it)).data_size + item_size it
          < max_udp_msg_size)
unfolding make_room
make_room_lem type sender sb it f o = elim (Bool-cases (is_full sb (item_size it))) [
  | inl e ↦ rw e (
    sendbuf_clear-IsOpen type sb.type sender (sendbuf_flush sb) o.typed (sendbuf_flush-fits sb o),
    unfold sendbuf_clear in simp append-nil (packed-sendbuf_flush sb o),
    unfold sendbuf_clear in omega (arith, ap batch_header o.typed),
  )
  | inr e ↦ rw e (o, refl, ground arith)
]

-- An item that fits an empty message is added behind the others; the assertion holds.
pub add_item_lem :
    (type : MsgCode) (sender : ℕ) (sb : SendBuf) (it : Item)
    → Fits type it
    → IsOpen type sb
    → (sb' : SendBuf) × (add_item type sender sb it ≡ some sb')
      × IsOpen type sb'
      × (added sb' ≡ added sb ++ it ∷ [])
unfolding add_item append_item
add_item_lem type sender sb it f o =
    let r = make_room sender sb (item_size it) in
    let h = make_room_lem type sender sb it f o in
    (
      append_item r it,
      rw (ap code o.typed, ==_refl (code type)),
      record {
        typed = (h.0).typed;
        sized = omega (arith, items_size-append r.items (it ∷ []), (h.0).sized);
        bounded = omega (arith, h.2);
        clean = λ e. absurd (cc);
        fits = (h.0).fits;
      },
      sym (append_assoc (packed r.sent) r.items (it ∷ [])) ∙ ap (λ l. l ++ it ∷ []) h.1,
    )

-- The loops of the senders: one add for each item.
unfoldable pub add_all : MsgCode → ℕ → SendBuf → List Item → Option SendBuf
add_all type sender sb [] = some sb
add_all type sender sb (x ∷ xs) = add_item type sender sb x >>= λ sb'. add_all type sender sb' xs

pub add_all_lem :
    (type : MsgCode) (sender : ℕ) (sb : SendBuf) (xs : List Item)
    → All (Fits type) xs
    → IsOpen type sb
    → (sb' : SendBuf) × (add_all type sender sb xs ≡ some sb')
      × IsOpen type sb'
      × (added sb' ≡ added sb ++ xs)
unfolding add_all
add_all_lem type sender sb [] f o = (sb, refl, o, sym (append-nil (added sb)))
add_all_lem type sender sb (x ∷ xs) f o =
    let (sb', e, o', q) = add_item_lem type sender sb x f.0 o in
    let (sb'', e', o'', q') = add_all_lem type sender sb' xs f.1 o' in
    (sb'', rw e e', o'', q' ∙ ap (λ l. l ++ xs) q ∙ append_assoc (added sb) (x ∷ []) xs)

-- Any list of items, each of which fits an empty message, is sent whole: cleared, filled and
-- flushed, the buffer has sent datagrams that hold exactly these items, in this order, behind
-- what it had sent before, and each datagram has its declared size, below MAX_UDP_MSG_SIZE.
pub batch_lem :
    (type : MsgCode) (sender : ℕ) (sb : SendBuf) (xs : List Item)
    → All IsFit sb.sent
    → All (Fits type) xs
    → (sb' : SendBuf) × (add_all type sender (sendbuf_clear sb type sender) xs ≡ some sb')
      × (packed (sendbuf_flush sb').sent ≡ packed sb.sent ++ xs)
      × All IsFit (sendbuf_flush sb').sent
batch_lem type sender sb xs sent f =
    let o = sendbuf_clear-IsOpen type type sender sb refl sent in
    let (sb', e, o', q) = add_all_lem type sender (sendbuf_clear sb type sender) xs f o in
    (
      sb',
      e,
      packed-sendbuf_flush sb' o'
          ∙ q
          ∙ ap (λ l. l ++ xs) (unfold sendbuf_clear in append-nil (packed sb.sent)),
      sendbuf_flush-fits sb' o',
    )
