-- ===== src/SyncObject/Locking.antt =====
-- `MUTEX_LOCK` and `MUTEX_UNLOCK` of sw/itc-common/inc/itcMutex.h.
use itc_platform.Common.{
  ℕ, ◌+◌, ◌/◌, ◌^◌, ◌<◌, ◌≡◌, refl, ap, ◌∙◌, arith, Option, none, some, ltb, leb, if◌then◌else◌,
}
use itc_platform.SyncObject.{Time, billion, time_diff_in_nano_sec}
use itc_platform.SyncObject.Dates.{nanoseconds, time_diff_lem}

-- The calls of the system, on a state of the system of any type. The macros do not look at what the
-- calls answer.
pub record Calls {ℓ} (W : Type ℓ) : Type ℓ where
  pub clock_get_time : W → Time × W
  pub pthread_mutex_lock : ℕ → W → W
  pub pthread_mutex_unlock : ℕ → W → W

-- What is printed: the mutex, and the microseconds where the time is measured. The name of the macro
-- and the place of its use in the source are left out.
pub record Line : Type 0 where
  pub mtx : ℕ
  pub time_elapsed : Option ℕ

-- The three definitions of the macros: with MUTEX_TIME_MEASURE_DEBUG_ENABLE, with
-- MUTEX_DEBUG_ENABLE, and with neither.
pub data Build : Type 0 where
  time_measure : Build
  debug : Build
  plain : Build

module _ {ℓ} {W : Type ℓ} (os : Calls W) where
  -- What both macros do around their call when the time is measured.
  unfoldable measured : ℕ → (W → W) → W → Option Line × W
  measured mtx call w =
      let (t_start, w1) = os.clock_get_time w in
      let (t_end, w2) = os.clock_get_time (call w1) in
      let difftime = time_diff_in_nano_sec t_start t_end in
      (
        if ltb 5 (difftime / 1000000)
            then some (record { mtx = mtx; time_elapsed = some (difftime / 1000) })
            else none,
        w2,
      )

  unfoldable mutex_lock : Build → ℕ → W → Option Line × W
  mutex_lock time_measure mtx w = measured mtx (os.pthread_mutex_lock mtx) w
  mutex_lock debug mtx w =
      (some (record { mtx = mtx; time_elapsed = none }), os.pthread_mutex_lock mtx w)
  mutex_lock plain mtx w = (none, os.pthread_mutex_lock mtx w)

  unfoldable mutex_unlock : Build → ℕ → W → Option Line × W
  mutex_unlock time_measure mtx w = measured mtx (os.pthread_mutex_unlock mtx) w
  mutex_unlock debug mtx w =
      (some (record { mtx = mtx; time_elapsed = none }), os.pthread_mutex_unlock mtx w)
  mutex_unlock plain mtx w = (none, os.pthread_mutex_unlock mtx w)

  -- A call whose time is measured is made once, between two readings of the clock, and is reported
  -- once it took six milliseconds, not from five on, with the whole microseconds that it took. The
  -- clock does not run backwards, gives less than a second in nanoseconds and fits in 64 bits.
  measured_lem :
      (mtx : ℕ) (call : W → W) (w w1 w2 : W) (t_start t_end : Time) (took : ℕ)
      → os.clock_get_time w ≡ (t_start, w1)
      → os.clock_get_time (call w1) ≡ (t_end, w2)
      → t_start.nsec < billion
      → t_end.nsec < billion
      → nanoseconds t_start + took ≡ nanoseconds t_end
      → nanoseconds t_end < 2 ^ 64
      → measured mtx call w ≡ (
        if leb 6000000 took
            then some (record { mtx = mtx; time_elapsed = some (took / 1000) })
            else none,
        w2,
      )
  unfolding measured
  measured_lem mtx call w w1 w2 t_start t_end took e1 e2 hs he took_eq fits =
      let same : time_diff_in_nano_sec t_start t_end ≡ took =
        omega (arith, time_diff_lem t_start t_end hs he (omega arith) fits) in
      rw e1 (rw e2 (rw same (ground arith)))

  -- In every build the macros lock and unlock the mutex once, where reading the clock changes
  -- nothing: the builds differ in what is printed only.
  builds_agree :
      ((w : W) → (os.clock_get_time w).1 ≡ w)
      → (build : Build) (mtx : ℕ) (w : W)
      → ((mutex_lock build mtx w).1 ≡ os.pthread_mutex_lock mtx w)
        × ((mutex_unlock build mtx w).1 ≡ os.pthread_mutex_unlock mtx w)
  unfolding measured mutex_lock mutex_unlock
  builds_agree reads time_measure mtx w = (
    reads _ ∙ ap (os.pthread_mutex_lock mtx) (reads w),
    reads _ ∙ ap (os.pthread_mutex_unlock mtx) (reads w),
  )
  builds_agree reads debug mtx w = (refl, refl)
  builds_agree reads plain mtx w = (refl, refl)
