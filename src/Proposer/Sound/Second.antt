-- ===== src/Proposer/Sound/Second.antt =====
-- lib/proposer_leader.c, phase 2: values are assigned, and the routines that open instances succeed.
use libpaxos.Base.{
  List, [], ◌∷◌, length, ℕ, ◌+◌, ◌-◌, ◌≤◌, ◌<◌, ◌≡◌, ◌⊎◌, inl, inr, refl, sym, ◌∙◌, true, false,
  ◌==◌, ==_iff, arith, some, none, ◌&&◌, ◌||◌, not, Option-cases, is_some,
}
use libpaxos.Config.{proposer_array_size}
use libpaxos.Messages.{MsgCode, code}
use libpaxos.SendBuf.{SendBuf, sendbuf_clear, append_item}
use libpaxos.Values.{Value, Values, vh_get_next_pending}
use libpaxos.Values.Queue.{IsQueue}
use libpaxos.Proposer.{
  TimeVal, Status, Instance, Proposer, has_status, slot, instance_of, before, sub32,
}
use libpaxos.Proposer.Timing.{leader_set_expiration}
use libpaxos.Proposer.Phase1.{start_batch}
use libpaxos.Proposer.Phase2.{
  assign_value, leader_execute_p2, open_p2_expired, leader_open_instances_p2_expired,
}
use libpaxos.Proposer.Assign.{sent_state, leader_execute_p2-eq}
use libpaxos.Proposer.Opening.{make_room-type}
use libpaxos.Proposer.Accepts.Routines.{has_status_lem}
use libpaxos.Proposer.Sound.{
  Succeeds, succeeds, Succeeds-bind, Succeeds-if, Succeeds-assert, for_range-Succeeds,
}
use libpaxos.Proposer.Sound.Count.{count-pos}
use libpaxos.Proposer.Sound.Array.{is_ready, Counts-write, Window-keep, SoundIn, Bounds, slot-lt}

-- The buffer collects accept requests.
abbrev pub CollectsAccepts : SendBuf → Type 0
CollectsAccepts sb = (code sb.type == code MsgCode.accept_reqs) ≡ true

-- There is a value to send.
abbrev pub HasValue : Instance → Values → Type 0
HasValue ii vh =
    (is_some ii.p2_value ≡ true) ⊎ ((not (is_some ii.p1_value) && (vh.vh_list_size == 0)) ≡ false)

-- The instance with the value assigned.
record Assigned (ii : Instance) (vh : Values) : Type 0 where
  value : Value
  with_value : Instance
  left : Values
  assigns : assign_value ii vh ≡ some (value, with_value, left)
  has_p2_value : is_some with_value.p2_value ≡ true
  same_number : with_value.iid ≡ ii.iid
  queue : IsQueue left

assign_value-Assigned : (ii : Instance) (vh : Values) → IsQueue vh → HasValue ii vh → Assigned ii vh
unfolding assign_value vh_get_next_pending
assign_value-Assigned ii vh q h = elim (Option-cases ii.p1_value) [
  | inr (w, e) ↦ record {
    value = w;
    with_value = record ii { p2_value = some w; p1_value = none; p1_value_ballot = 0 };
    left = vh;
    assigns = rw (e, assign_value) refl;
    has_p2_value = refl;
    same_number = refl;
    queue = q;
  }
  | inl e ↦ elim (Option-cases ii.p2_value) [
    | inr (w, e2) ↦ record {
      value = w;
      with_value = ii;
      left = vh;
      assigns = ground arith;
      has_p2_value = rw e2 refl;
      same_number = refl;
      queue = q;
    }
    | inl e2 ↦ from_list e e2 vh q (rw (e, e2) at h)
  ]
]
  where
    from_list :
        ii.p1_value ≡ none
        → ii.p2_value ≡ none
        → (vh : Values) → IsQueue vh
        → (false ≡ true) ⊎ ((vh.vh_list_size == 0) ≡ false)
        → Assigned ii vh
    from_list e e2 vh q h = by_list vh.vh_list refl
      where
        by_list : (l : List Value) → vh.vh_list ≡ l → Assigned ii vh
        by_list [] at_list = let size = q.counted in absurd (ground (arith, h, size, at_list))
        by_list (w ∷ ws) at_list =
            let size = q.counted in
            record {
              value = w;
              with_value = record ii { p2_value = some w };
              left = record vh { vh_list = ws; vh_list_size = vh.vh_list_size - 1 };
              assigns = ground arith;
              has_p2_value = refl;
              same_number = refl;
              queue = record { counted = ground (arith, size, at_list) };
            }

module _ (clock : ℕ → TimeVal) where
  pub leader_execute_p2-Succeeds :
      (Q : Proposer → Type 0) (iid : ℕ) (s : Proposer)
      → CollectsAccepts s.to_acceptors
      → IsQueue s.values
      → HasValue (instance_of s iid) s.values
      → ((v : Value) (ii : Instance) (vh : Values)
          → is_some ii.p2_value ≡ true
          → ii.iid ≡ (instance_of s iid).iid
          → IsQueue vh
          → CollectsAccepts (sent_state clock iid s v ii vh).to_acceptors
          → Q (sent_state clock iid s v ii vh))
      → Succeeds Q (leader_execute_p2 clock iid s)
  unfolding append_item
  leader_execute_p2-Succeeds Q iid s c q h k =
      let a = assign_value-Assigned (instance_of s iid) s.values q h in
      let e = leader_execute_p2-eq clock iid s a.value a.with_value a.left c a.assigns in
      let size = 24 + length a.value in
      rw e (
        succeeds (
          k a.value a.with_value a.left a.has_p2_value a.same_number a.queue
            (rw (make_room-type s.to_acceptors.sender s.to_acceptors size) c)))

  module _ (cur top next id leader : ℕ) where
    abbrev Accepting : ℕ → Proposer → Type 0
    Accepting i s =
        (cur ≤ i)
        × CollectsAccepts s.to_acceptors
        × Bounds cur top next id leader s
        × SoundIn cur top next s

    open_p2_expired-Succeeds :
        (i : ℕ) (s : Proposer)
        → i < next
        → Accepting i s
        → Succeeds (Accepting (i + 1)) (open_p2_expired clock i s)
    unfolding open_p2_expired leader_set_expiration
    open_p2_expired-Succeeds i s b (low, c, fixed, g) =
        let ii = instance_of s i in
        let n = proposer_array_size in
        let below = g.window.high in
        let (held, number) = g.window.held i low (omega (arith, b, below)) in
        let has_value : is_some ii.p2_value ≡ true =
          (g.window.used (slot i) held).begun (omega (arith, b, number)) in
        Succeeds-assert (ii.iid == i) ((==_iff ii.iid i).1 number) (
          Succeeds-if (has_status ii Status.p1_ready)
            (λ ready.
              let st = has_status_lem ii Status.p1_ready ready in
              let some_ready = count-pos is_ready s.proposer_state n (slot i) (slot-lt i) ready in
              let all = g.counts.all_ready in
              let most = g.counts.few in
              Succeeds-assert (is_some ii.p2_value || is_some ii.p2_value) (rw has_value refl) (
                Succeeds-bind
                  (leader_execute_p2-Succeeds
                    (λ s'. Accepting (i + 1) (record s' {
                      p1_info = record s'.p1_info { ready_count = sub32 s'.p1_info.ready_count 1 };
                    }))
                    i s c g.queue (inl has_value)
                    (λ v ii' vh value same q c'. (
                      omega (arith, low),
                      c',
                      fixed,
                      record {
                        window =
                            Window-keep i _ held same (value ∙ sym has_value) (omega arith)
                              (λ h. absurd (omega (arith, h, same, number, b))) g.window;
                        counts =
                            Counts-write s.p1_info.pending_count (sub32 s.p1_info.ready_count 1)
                              s.p2_info.open_count i _ (ground (arith, st))
                              (ground (arith, st, some_ready, all, most))
                              (ground (arith, st, has_value))
                              (inr (ground (arith, st, some_ready, all, most))) g.counts;
                        queue = q;
                        few_open = g.few_open;
                      },
                    )))
                  (λ s' r. succeeds r)))
            (λ _. succeeds (omega (arith, low), c, fixed, g)))

    pub leader_open_instances_p2_expired-Succeeds :
        (s : Proposer)
        → Bounds cur top next id leader s
        → SoundIn cur top next s
        → Succeeds
            (λ s'. Bounds cur top next id leader s' × SoundIn cur top next s')
            (leader_open_instances_p2_expired clock s)
    unfolding leader_open_instances_p2_expired sendbuf_clear
    leader_open_instances_p2_expired-Succeeds s (e, e', e'', d, d') g =
        let lo = g.window.low in
        let fits : s.current_iid + before s.current_iid s.p2_info.next_unused_iid ≤ next =
          omega (arith, e, e'', lo) in
        Succeeds-bind
          (for_range-Succeeds Accepting (open_p2_expired clock) next open_p2_expired-Succeeds
            (before s.current_iid s.p2_info.next_unused_iid) s.current_iid
            (start_batch MsgCode.accept_reqs s) fits
            (omega (arith, e), refl, (e, e', e'', d, d'), g))
          (λ s' (_, _, fixed, g'). succeeds (fixed, g'))
