-- ===== src/Examples/Pools.antt =====
-- Two workers and three tasks, which end out of order.
use fers.Base.{ℕ, ◌≡◌, ◌<◌, refl, true, List, [], ◌∷◌, arith}
use fers.Simulation.Events.{sum_by}
use fers.ThreadPool.{
  PoolEvent, enqueued, woken, done, destroyed, new_pool, enqueue_task, worker_at, set_worker,
  take_task, finish_task, all_done, after_enqueue, wake_worker, finish_worker, pool_step, pool_run,
}
use fers.ThreadPool.Waiting.{pool_run-all_done}

abbrev three_tasks : List (PoolEvent ℕ)
three_tasks =
    enqueued 10
    ∷ enqueued 20
    ∷ woken 1
    ∷ woken 0
    ∷ done 0
    ∷ enqueued 30
    ∷ woken 0
    ∷ destroyed
    ∷ enqueued 40
    ∷ done 1
    ∷ done 0
    ∷ []

runs : (pool_run three_tasks (new_pool 2)).finished ≡ 30 ∷ 10 ∷ 20 ∷ []
unfolding pool_run pool_step new_pool enqueue_task worker_at set_worker take_task finish_task
    after_enqueue wake_worker finish_worker
runs = refl

few : sum_by (λ t. 1) (pool_run three_tasks (new_pool 2)).accepted < 4_294_967_296
unfolding pool_run pool_step new_pool enqueue_task worker_at set_worker take_task finish_task
    after_enqueue wake_worker finish_worker
few = omega arith

ended : all_done (pool_run three_tasks (new_pool 2)) ≡ true
unfolding pool_run pool_step new_pool enqueue_task worker_at set_worker take_task finish_task
    after_enqueue wake_worker finish_worker all_done
ended = refl

pool_run-all_done_example :
    sum_by (λ t. t) (pool_run three_tasks (new_pool 2)).finished
    ≡ sum_by (λ t. t) (pool_run three_tasks (new_pool 2)).accepted
pool_run-all_done_example = pool_run-all_done (λ t. t) 2 three_tasks few ended
