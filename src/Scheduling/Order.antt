-- ===== src/Scheduling/Order.antt =====
-- When `operator<` of the scheduling tasks orders them, and when it does not.
use libcmm.Prelude.{◌<◌, ◌≡◌, ◌∙◌, true, false, arith, ltb, eqb_ℤ_iff, if◌then◌else◌}
use mathlib.Core.Path.{ap₂}
use libcmm.StdSet.{StrictWeakOrder}
use libcmm.Scheduling.Task.{Timeval, time_lt, SchedulingData, is_ondemand, less}

-- Tasks without a completion time of their own, or with one and the same.
abbrev pub At : Timeval → SchedulingData → Type 0
At t d = d.completion_time ≡ t

time_lt_irrefl : (t : Timeval) → time_lt t t ≡ false
time_lt_irrefl t = ground (arith, eqb_ℤ_iff t.tv_sec t.tv_sec)

module _ (t : Timeval) where
  -- Without the times the order is by demand, then by id.
  pub less-At :
      (a b : SchedulingData)
      → At t a
      → At t b
      → less a b ≡ (
          if is_ondemand a
          then (if is_ondemand b then ltb a.id b.id else true)
          else (if is_ondemand b then false else ltb a.id b.id))
  unfolding less
  less-At a b ha hb =
      let level : time_lt a.completion_time b.completion_time ≡ false =
        ap₂ time_lt ha hb ∙ time_lt_irrefl t in
      ground arith

  -- Among tasks of one completion time, so among all tasks that are no acknowledgements,
  -- `operator<` is a strict weak order.
  pub less-StrictWeakOrder : StrictWeakOrder less (At t)
  less-StrictWeakOrder = record {
    irrefl = λ a ga. ground (arith, less-At a a ga ga);
    trans = λ a b c ga gb gc h k.
        ground (arith, less-At a b ga gb, less-At b c gb gc, less-At a c ga gc);
    same_left = λ a b c ga gb gc h.
        ground (arith, less-At a b ga gb, less-At b a gb ga, less-At a c ga gc, less-At b c gb gc);
    same_right = λ a b c ga gb gc h.
        ground (arith, less-At a b ga gb, less-At b a gb ga, less-At c a gc ga, less-At c b gc gb);
  }

-- Of two tasks of one demand, of which the one with the earlier completion time has the greater id,
-- each is less than the other, which no strict weak order allows.
pub less_both_ways :
    (a b : SchedulingData)
    → is_ondemand a ≡ is_ondemand b
    → time_lt a.completion_time b.completion_time ≡ true
    → b.id < a.id
    → (less a b ≡ true) × (less b a ≡ true)
unfolding less
less_both_ways a b demand earlier greater = ground arith
