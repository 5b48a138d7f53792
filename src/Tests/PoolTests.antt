-- ===== src/Tests/PoolTests.antt =====
-- The worker pool.
use nshgeoip.Prelude.{◌<◌, ◌≡◌, refl, true, [], ◌∷◌}
use nshgeoip.Pool.{
  new_pool, submit, begin_shutdown, take_task, wake, AllExited, waiting, ThreadPool, WorkerStep,
  wakes, works, submits, stops, Reach, here, next,
}
use nshgeoip.Pool.Descriptors.{Reach-Inv, Inv}
use nshgeoip.Pool.Drain.{
  work_left, WorkerStep-work_left, shutdown_drains, Reach-IsDrained, WorkerRun, IsDrained,
}

-- Two workers, two descriptors queued, the first one taken, then the stop; a third comes too late.
abbrev taken : ThreadPool
taken = wake (submit (submit (new_pool 2) 7) 9) [] (waiting ∷ [])

abbrev stopped : ThreadPool
stopped = submit (begin_shutdown taken) 8

stopped_queue : stopped.queue ≡ 9 ∷ []
unfolding new_pool submit begin_shutdown wake take_task
stopped_queue = refl

stopped_refused : stopped.refused ≡ 8 ∷ []
unfolding new_pool submit begin_shutdown wake take_task
stopped_refused = refl

Reach-taken : Reach (new_pool 2) taken
unfolding new_pool submit
Reach-taken =
    next (next (next here (submits _ 7)) (submits _ 9))
      (works (wakes _ [] (waiting ∷ []) refl refl))

Reach-stopped : Reach (new_pool 2) stopped
Reach-stopped = next (next Reach-taken (stops _)) (submits _ 8)

-- The one worker of a pool that is stopped at once.
abbrev ended : ThreadPool
ended = wake (begin_shutdown (new_pool 1)) [] []

Reach-ended : Reach (new_pool 1) ended
unfolding new_pool begin_shutdown
Reach-ended = next (next here (stops _)) (works (wakes _ [] [] refl refl))

Reach-Inv_example : Inv stopped
Reach-Inv_example = Reach-Inv 2 Reach-stopped

stopped_stop : stopped.stop ≡ true
unfolding new_pool submit begin_shutdown wake take_task
stopped_stop = refl

shutdown_drains_example : (q : ThreadPool) × WorkerRun stopped q × IsDrained stopped q
shutdown_drains_example = shutdown_drains 1 Reach-stopped stopped_stop

ended_exited : AllExited ended.workers
unfolding new_pool begin_shutdown wake take_task
ended_exited = (refl, tt)

Reach-IsDrained_example : IsDrained ended ended
Reach-IsDrained_example = Reach-IsDrained 0 Reach-ended ended_exited

abbrev queued : ThreadPool
queued = submit (submit (new_pool 2) 7) 9

queued-taken : WorkerStep queued taken
unfolding new_pool submit
queued-taken = wakes _ [] (waiting ∷ []) refl refl

WorkerStep-work_left_example : work_left taken < work_left queued
WorkerStep-work_left_example = WorkerStep-work_left queued-taken
