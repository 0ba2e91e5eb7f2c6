-- ===== src/Proposer/Reign.antt =====
-- What is left of a leader's instances at its shutdown.
use libpaxos.Base.{ℕ, zero, suc, ◌+◌, ◌≤◌, ◌<◌, ◌≡◌, true, none, refl, arith}
use libpaxos.Values.{Values}
use libpaxos.Values.Queue.{IsQueue}
use libpaxos.Proposer.{Status, Instance, Proposer, instance_of, for_range, set_instance}
use libpaxos.Proposer.{pro_clear_instance_info}
use libpaxos.Proposer.Leader.{abandon, shutdown_loop}
use libpaxos.Base.{◌-◌, ◌%◌, false, leb, ap, fun_ext, ◌>>=◌}
use libpaxos.Config.{u32_mod}

-- An instance with nothing in it.
pub record IsClear (ii : Instance) : Type 0 where
  pub no_number : ii.iid ≡ 0
  pub is_empty : ii.status ≡ Status.empty
  pub no_bits : ii.promises_bitvector ≡ 0
  pub no_promises : ii.promises_count ≡ 0
  pub no_p1_ballot : ii.p1_value_ballot ≡ 0
  pub no_p1_value : ii.p1_value ≡ none
  pub no_p2_value : ii.p2_value ≡ none

-- What one round leaves, and then the loop over the instances `i`, `i + 1`, ….
record Abandons (rounds i : ℕ) (s s' : Proposer) : Type 0 where
  queue : IsQueue s'.values
  cleared : (j : ℕ) → i ≤ j → j < i + rounds → IsClear (instance_of s' j)
  kept : (j : ℕ) → IsClear (instance_of s j) → IsClear (instance_of s' j)

module _ (iid : ℕ) (s : Proposer) where
  -- The state with the cleared record, and with any pending values.
  abbrev emptied : Values → Proposer
  emptied vh = record (set_instance s iid (pro_clear_instance_info (instance_of s iid))) {
    values = vh;
  }

-- Below 2 ^ 32, the loop is one over a range.
pub shutdown_loop-for_range :
    (last rounds i : ℕ) (s : Proposer)
    → last + 1 < u32_mod
    → i < u32_mod
    → rounds ≡ last + 1 - i
    → shutdown_loop (suc rounds) last i s ≡ for_range abandon rounds i s
unfolding shutdown_loop for_range
shutdown_loop-for_range last zero i s small low e =
    let over : leb i last ≡ false = ground (arith, e) in rw over refl
shutdown_loop-for_range last (suc rounds) i s small low e =
    let more : leb i last ≡ true = ground (arith, e) in
    let next : (i + 1) % u32_mod ≡ i + 1 = omega (arith, e, small) in
    rw (more, next)
      (ap (λ k. abandon i s >>= k)
        (fun_ext (λ s'.
          shutdown_loop-for_range last rounds (i + 1) s' small (omega (arith, e, small))
            (omega (arith, e)))))
