-- ===== src/Values.antt =====
-- lib/proposer_values_handler.c: the leader's list of pending values. The linked list from
-- `vh_list_head` to `vh_list_tail` is a list, empty where both pointers are NULL; the lock is not
-- modelled, nor the socket. Calls of `vh_notify_client`, which is a stub, are recorded in
-- `notified`, oldest first: the flag tells whether the value was delivered.
pub mod Queue
mod Tests
use libpaxos.Base.{
  ℕ, zero, suc, ◌+◌, ◌-◌, Bool, true, false, Option, none, some, List, [], ◌∷◌, ◌++◌,
}
use libpaxos.Base.{ltb, if◌then◌else◌, bytes_eq, length}
use libpaxos.Config.{leader_max_queue_length}
use libpaxos.Receiver.{Body, Datagram, udp_read_next_message, submit}

-- `vh_value_wrapper`: the bytes of a value; `value_size` is their number.
abbrev pub Value : Type 0
Value = List ℕ

pub record Values : Type 0 where
  pub vh_list : List Value
  pub vh_list_size : ℕ
  pub dropped_count : ℕ
  pub notified : List (Bool × Value)

-- Whether `vh_value_compare` returns 0.
unfoldable pub vh_value_compare : Value → Value → Bool
unfolding bytes_eq
vh_value_compare vw1 vw2 = bytes_eq vw1 vw2

-- LEADER_EVENTS_UPDATE_INTERVAL is defined, so drops are counted.
unfoldable pub vh_enqueue_value : Value → Values → Values
vh_enqueue_value value vh =
    if ltb leader_max_queue_length vh.vh_list_size
    then record vh { dropped_count = vh.dropped_count + 1 }
    else (elim vh.vh_list [
      | [] ↦ record vh { vh_list = value ∷ []; vh_list_size = 1 }
      | v ∷ vs ↦ record vh { vh_list = (v ∷ vs) ++ value ∷ []; vh_list_size = vh.vh_list_size + 1 }
    ])

-- The size is not 0 where the list is not empty.
unfoldable pub vh_get_next_pending : Values → Option Value × Values
vh_get_next_pending vh = elim vh.vh_list [
  | [] ↦ (none, vh)
  | first_vw ∷ rest ↦
      (some first_vw, record vh { vh_list = rest; vh_list_size = vh.vh_list_size - 1 })
]

unfoldable pub vh_push_back_value : Value → Values → Values
vh_push_back_value vw vh = elim vh.vh_list [
  | [] ↦ record vh { vh_list = vw ∷ []; vh_list_size = 1 }
  | v ∷ vs ↦ record vh { vh_list = vw ∷ v ∷ vs; vh_list_size = vh.vh_list_size + 1 }
]

unfoldable pub vh_notify_client : Bool → Value → Values → Values
vh_notify_client delivered vw vh = record vh { notified = vh.notified ++ (delivered, vw) ∷ [] }

-- The socket is set up without an error.
unfoldable pub vh_init : Values → Values
vh_init vh = record vh { vh_list = []; vh_list_size = 0; dropped_count = 0 }

-- The loop of `vh_shutdown`, with fuel; `none` means that the fuel ran out.
unfoldable pub notify_all : ℕ → Values → Option Values
notify_all zero vh = none
notify_all (suc fuel) vh =
    let (vw, vh') = vh_get_next_pending vh in
    elim vw [ none ↦ some vh' | some v ↦ notify_all fuel (vh_notify_client false v vh') ]

unfoldable pub vh_shutdown : Values → Option Values
vh_shutdown vh = notify_all (suc (length vh.vh_list)) vh

-- Only a submitted value is used; of what `recvfrom` gives, what passes the checks.
unfoldable pub vh_handle_newmsg : Option (Datagram × ℕ) → Values → Values
unfolding udp_read_next_message vh_enqueue_value
vh_handle_newmsg received vh = elim (udp_read_next_message received) [
  | some (submit value) ↦ vh_enqueue_value value vh
  | _ ↦ vh
]

unfoldable pub pax_submit_sharedmem : Value → Values → Values
unfolding vh_enqueue_value
pax_submit_sharedmem value vh = vh_enqueue_value value vh
