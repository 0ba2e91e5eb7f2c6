-- ===== src/Proposer/Sound/Changes.antt =====
-- The window of a leader's instances as it grows, is assigned to and is delivered.
use libpaxos.Base.{
  ℕ, ◌+◌, ◌≤◌, ◌<◌, ◌≡◌, ◌≢◌, ◌⊎◌, inl, inr, sym, ◌∙◌, ap, true, false, ◌==◌, ==_iff, ==_refl,
  arith, update, Bool-cases, is_some,
}
use libpaxos.Config.{u64_mod, proposer_array_size}
use libpaxos.Proposer.{Instance, status_number, slot}
use libpaxos.Proposer.Sound.Array.{IsUsed, Window}

module _ {cur top next : ℕ} {state : ℕ → Instance} where
  -- The slot behind the window is free.
  pub next_slot_free :
      (i : ℕ)
      → top < i
      → i < cur + proposer_array_size
      → Window cur top next state
      → status_number (state (slot i)).status ≡ 0
  next_slot_free i above fits w = elim (zero_or_IsUsed (state (slot i))) [
    | inl free ↦ free
    | inr held ↦
        let p = w.used (slot i) held in
        let a = p.place in
        let b = p.low in let c = p.high in absurd (omega (arith, a, b, c, above, fits))
  ]
    where
      zero_or_IsUsed : (ii : Instance) → (status_number ii.status ≡ 0) ⊎ IsUsed ii
      zero_or_IsUsed ii = ground arith

  -- An instance is opened.
  pub Window-open :
      (i : ℕ) (ii : Instance)
      → i ≡ top + 1
      → i + 1 < cur + proposer_array_size
      → i + 1 < u64_mod
      → ii.iid ≡ i
      → status_number ii.status ≡ 1
      → is_some ii.p2_value ≡ false
      → Window cur top next state
      → Window cur i next (update state (slot i) ii)
  Window-open i ii e fits bound number status none_yet w =
      let lo = w.low in
      let hi = w.high in
      let free = next_slot_free i (omega (arith, e)) (omega (arith, fits)) w in
      record {
        starts = w.starts;
        low = lo;
        high = omega (arith, hi, e);
        narrow = fits;
        bounded = bound;
        used = λ j. elim (Bool-cases (slot i == j)) [
          | inl same ↦
              let here : slot i ≡ j = (==_iff (slot i) j).0 same in
              rw same (λ h. record {
                place = ap slot number ∙ here;
                low = omega (arith, number, e, lo, hi);
                high = omega (arith, number);
                begun = λ b. absurd (omega (arith, b, number, e, hi));
                unbegun = λ b. (none_yet, omega (arith, status));
              })
          | inr other ↦ rw other (λ h.
              let p = w.used j h in
              let top_ok = p.high in
              record {
                place = p.place;
                low = p.low;
                high = omega (arith, top_ok, e);
                begun = p.begun;
                unbegun = p.unbegun;
              })
        ];
        unused = λ j. elim (Bool-cases (slot i == j)) [
          | inl same ↦ rw same (λ h. absurd (omega (arith, h, status)))
          | inr other ↦ rw other (w.unused j)
        ];
        held = λ k from to. elim (Bool-cases (slot i == slot k)) [
          | inl same ↦
              let here : slot i ≡ slot k = (==_iff (slot i) (slot k)).0 same in
              rw same (
                omega (arith, status),
                (let at_top : i ≡ k = omega (arith, here, from, to, fits, e) in number ∙ at_top),
              )
          | inr other ↦
              let below : k ≤ top = elim (Bool-cases (i == k)) [
                | inl top_one ↦
                    let q : i ≡ k = (==_iff i k).0 top_one in
                    absurd (let r : (slot i == slot k) ≡ true = rw q (==_refl (slot k)) in cc)
                | inr lower ↦ ground (arith, to, e, lower)
              ] in
              rw other (w.held k from below)
        ];
      }

  -- The next unused instance is given a value.
  pub Window-assign :
      (ii : Instance)
      → next ≤ top
      → ii.iid ≡ next
      → IsUsed ii
      → is_some ii.p2_value ≡ true
      → Window cur top next state
      → Window cur top (next + 1) (update state (slot next) ii)
  Window-assign ii fits number held value w =
      let lo = w.low in
      record {
        starts = w.starts;
        low = omega (arith, lo);
        high = omega (arith, fits);
        narrow = w.narrow;
        bounded = w.bounded;
        used = λ j. elim (Bool-cases (slot next == j)) [
          | inl same ↦
              let here : slot next ≡ j = (==_iff (slot next) j).0 same in
              rw same (λ h. record {
                place = ap slot number ∙ here;
                low = omega (arith, number, lo);
                high = omega (arith, number, fits);
                begun = λ b. value;
                unbegun = λ b. absurd (omega (arith, b, number));
              })
          | inr other ↦ rw other (λ h.
              let p = w.used j h in
              let place = p.place in
              let not_next : (state j).iid ≢ next = λ q.
                let r : (slot next == j) ≡ true =
                  (==_iff (slot next) j).1 (ap slot (sym q) ∙ place) in
                cc in
              record {
                place = place;
                low = p.low;
                high = p.high;
                begun = λ b. p.begun (ground (arith, b, not_next));
                unbegun = λ b. p.unbegun (omega (arith, b));
              })
        ];
        unused = λ j. elim (Bool-cases (slot next == j)) [
          | inl same ↦ rw same (λ h. absurd (omega (arith, h, held)))
          | inr other ↦ rw other (w.unused j)
        ];
        held = λ k from to. elim (Bool-cases (slot next == slot k)) [
          | inl same ↦
              let here : slot next ≡ slot k = (==_iff (slot next) (slot k)).0 same in
              let narrow = w.narrow in
              rw same (
                held,
                (let q : next ≡ k = omega (arith, here, from, to, fits, lo, narrow) in number ∙ q),
              )
          | inr other ↦ rw other (w.held k from to)
        ];
      }

  -- The current instance is delivered, and its record cleared.
  pub Window-deliver :
      (next' : ℕ) (ii : Instance)
      → cur ≤ top
      → ((next ≡ cur) × (next' ≡ cur + 1)) ⊎ ((cur < next) × (next' ≡ next))
      → status_number ii.status ≡ 0
      → is_some ii.p2_value ≡ false
      → Window cur top next state
      → Window (cur + 1) top next' (update state (slot cur) ii)
  Window-deliver next' ii fits moved free none_left w =
      let hi = w.high in
      let narrow = w.narrow in
      record {
        starts = omega arith;
        low = ground (arith, moved);
        high = ground (arith, moved, hi, fits);
        narrow = omega (arith, narrow);
        bounded = w.bounded;
        used = λ j. elim (Bool-cases (slot cur == j)) [
          | inl same ↦ rw same (λ h. absurd (omega (arith, h, free)))
          | inr other ↦ rw other (λ h.
              let p = w.used j h in
              let place = p.place in
              let from = p.low in
              let begun = p.begun in
              let unbegun = p.unbegun in
              let not_cur : (state j).iid ≢ cur = λ q.
                let r : (slot cur == j) ≡ true =
                  (==_iff (slot cur) j).1 (ap slot (sym q) ∙ place) in
                cc in
              let above : cur + 1 ≤ (state j).iid = ground (arith, from, not_cur) in
              record {
                place = place;
                low = above;
                high = p.high;
                begun = λ b. p.begun (ground (arith, b, moved, above));
                unbegun = λ b. p.unbegun (ground (arith, b, moved, above));
              })
        ];
        unused = λ j. elim (Bool-cases (slot cur == j)) [
          | inl same ↦ rw same (λ h. none_left)
          | inr other ↦ rw other (w.unused j)
        ];
        held = λ k from to.
            let apart : (slot cur == slot k) ≡ false = ground (arith, from, to, narrow) in
            rw apart (w.held k (omega (arith, from)) to);
      }
