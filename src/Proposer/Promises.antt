-- ===== src/Proposer/Promises.antt =====
-- lib/proposer.c, the promises: what a proposer keeps of them, and when phase 1 is complete.
use libpaxos.Base.{ℕ, ◌+◌, ◌%◌, ◌==◌, Bool, true, false, not, none, some, List, [], ◌∷◌}
use libpaxos.Base.{ltb, leb, if◌then◌else◌, bytes_eq, ◌||◌, length}
use libpaxos.Config.{quorum}
use libpaxos.Messages.{PrepareAck}
use libpaxos.Proposer.{Status, Instance, Proposer, instance_of, set_instance, has_status}
use libpaxos.Proposer.{sub32, add32}

-- `v & (1<acceptor_id)`: the comparison is 1 or 0. The acceptor's number has passed the checks of
-- the receiver, and is not negative.
abbrev pub masked : ℕ → ℕ → ℕ
masked v acceptor_id = if ltb 1 acceptor_id then v % 2 else 0

-- What is kept of the value of a promise that is counted.
unfoldable pub save_promised_value : Instance → PrepareAck → Instance
save_promised_value ii pa =
    if length pa.value == 0
    then ii
    else (if leb pa.value_ballot ii.p1_value_ballot then ii else (elim ii.p1_value [
      | none ↦ record ii { p1_value = some pa.value; p1_value_ballot = pa.value_ballot }
      | some v ↦
          if bytes_eq v pa.value
          then record ii { p1_value_ballot = pa.value_ballot }
          else record ii { p1_value = some pa.value; p1_value_ballot = pa.value_ballot }
    ]))

unfoldable pub pro_save_prepare_ack : Instance → PrepareAck → ℕ → Instance
pro_save_prepare_ack ii pa acceptor_id =
    if masked ii.promises_bitvector acceptor_id == 0
    then save_promised_value
        (record ii {
          promises_bitvector = masked ii.promises_bitvector acceptor_id;
          promises_count = add32 ii.promises_count 1;
        })
        pa
    else ii

-- The instance reached a quorum: it is ready.
unfoldable pub complete_phase1 : Proposer → PrepareAck → Instance → Proposer
complete_phase1 s pa ii = record (set_instance s pa.iid (record ii { status = Status.p1_ready })) {
  p1_info = record s.p1_info {
    pending_count = sub32 s.p1_info.pending_count 1;
    ready_count = add32 s.p1_info.ready_count 1;
  };
}

-- The flag is set if the instance became ready.
unfoldable pub handle_prepare_ack : PrepareAck → ℕ → Proposer → Bool × Proposer
handle_prepare_ack pa acceptor_id s =
    let ii = instance_of s pa.iid in
    let ii' = pro_save_prepare_ack ii pa acceptor_id in
    if not (has_status ii Status.p1_pending) || not (pa.ballot == ii.my_ballot)
    then (false, s)
    else (if ltb ii'.promises_count quorum
        then (false, set_instance s pa.iid ii')
        else (true, complete_phase1 s pa ii'))

-- The loop over a batch: the number of instances that became ready.
unfoldable pub handle_prepare_acks : ℕ → List PrepareAck → Proposer → ℕ × Proposer
handle_prepare_acks acceptor_id [] s = (0, s)
handle_prepare_acks acceptor_id (pa ∷ pas) s =
    let (became_ready, s') = handle_prepare_ack pa acceptor_id s in
    let (ready, s'') = handle_prepare_acks acceptor_id pas s' in
    (if became_ready then ready + 1 else ready, s'')
