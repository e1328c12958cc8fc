-- ===== src/ThreadManager/Scheduling.antt =====
-- What the scheduling parameters of sw/itc-common/src/itcThreadManager.cc satisfy once they are set.
use itc_platform.Common.{
  ℕ, ◌≡◌, ◌≢◌, refl, arith, ◌⊎◌, inl, inr, ◌||◌, if◌then◌else◌, ℤ, ltb_ℤ, ◌≤ℤ◌, ℕ_discrete,
  Bool-cases,
}
use itc_platform.ThreadManager.{
  Manager, manager_ok, invalid_arguments, SchedCalls, sched_other, set_thread_attributes,
  check_scheduling_params,
}

-- The parameters are those of an allowed policy: between the bounds that the system gives, and no
-- priority above the limit.
pub record IsScheduled (calls : SchedCalls) (m : Manager) : Type 0 where
  pub above : calls.priority_min m.policy ≤ℤ m.priority
  pub below : m.priority ≤ℤ m.self_limit_prio
  pub limited : m.self_limit_prio ≤ℤ calls.priority_max m.policy

-- What the code takes for a priority and a limit of a policy.
abbrev pub InBounds : SchedCalls → ℕ → ℤ → ℤ → Type 0
InBounds calls policy limit priority =
    (calls.priority_min policy ≤ℤ priority)
    × (priority ≤ℤ calls.priority_max policy)
    × (calls.priority_min policy ≤ℤ limit)
    × (limit ≤ℤ calls.priority_max policy)

-- Attributes are set, and leave parameters within the bounds of their policy, where the policy is
-- SCHED_OTHER or the priority and the limit lie within its bounds; all others are refused and change
-- nothing. The bounds of SCHED_OTHER are in order.
pub set_thread_attributes-IsScheduled :
    (calls : SchedCalls) (policy : ℕ) (limit priority : ℤ) (m : Manager)
    → calls.priority_min sched_other ≤ℤ calls.priority_max sched_other
    → ((m' : Manager) × (set_thread_attributes calls policy limit priority m ≡ (manager_ok, m'))
        × (m'.policy ≡ policy)
        × IsScheduled calls m'
        × ((policy ≡ sched_other) ⊎ InBounds calls policy limit priority))
      ⊎ ((set_thread_attributes calls policy limit priority m ≡ (invalid_arguments, m))
          × (policy ≢ sched_other)
          × ¬ (InBounds calls policy limit priority))
unfolding set_thread_attributes check_scheduling_params
set_thread_attributes-IsScheduled calls policy limit priority m bounds =
    elim (ℕ_discrete policy sched_other) [
      | yes e ↦ inl (
        record m {
          policy = sched_other;
          self_limit_prio = calls.priority_max sched_other;
          priority = calls.priority_min sched_other;
        },
        ground arith,
        ground arith,
        record { above = omega arith; below = bounds; limited = omega arith },
        inl e,
      )
      | no ne ↦
          elim (Bool-cases (
            ltb_ℤ priority (calls.priority_min policy)
            || ltb_ℤ (calls.priority_max policy) priority
            || ltb_ℤ limit (calls.priority_min policy)
            || ltb_ℤ (calls.priority_max policy) limit)) [
              | inl outside ↦ inr (ground arith, ne, λ within. absurd (ground arith))
              | inr inside ↦ inl (
                record m {
                  policy = policy;
                  self_limit_prio = limit;
                  priority = if ltb_ℤ limit priority then limit else priority;
                },
                ground arith,
                refl,
                record { above = ground arith; below = ground arith; limited = ground arith },
                inr (ground arith),
              )
            ]
    ]
