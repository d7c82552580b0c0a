-- ===== src/ThreadPool/Waiting.antt =====
-- Every accepted task is queued, in a worker or finished; when `wait` returns it is finished.
use fers.Base.{
  ℕ, zero, suc, ◌+◌, ◌^◌, ◌%◌, ◌<◌, ◌≡◌, refl, true, List, [], ◌∷◌, ◌++◌, Option, none, some, arith,
  replicate,
}
use fers.Simulation.Events.{sum_by, sum_by-zero}
use fers.ThreadPool.{
  PoolWorker, waiting, exited, busy, ThreadPool, PoolEvent, enqueued, woken, done, destroyed,
  new_pool, enqueue_task, worker_at, set_worker, take_task, finish_task, all_done, after_enqueue,
  wake_worker, finish_worker, pool_step, pool_run,
}

module _ {T : Type 0} where
  -- A measure of a worker's task.
  abbrev pub load : (T → ℕ) → PoolWorker T → ℕ
  load f (busy task) = f task
  load f _ = 0

  abbrev pub running : (T → ℕ) → ThreadPool T → ℕ
  running f p = sum_by (load f) p.workers

  -- Tasks are conserved by a measure, and the counter counts those that are queued or in a worker.
  abbrev pub Balanced : (T → ℕ) → ThreadPool T → Type 0
  Balanced f p =
      (sum_by f p.accepted ≡ sum_by f p.tasks + running f p + sum_by f p.finished)
      × (p.pending_tasks ≡ (sum_by (λ t. 1) p.tasks + running (λ t. 1) p) % 2 ^ 32)

  set_worker-load :
      (f : T → ℕ) (i : ℕ) (v w : PoolWorker T) (workers : List (PoolWorker T))
      → worker_at i workers ≡ some w
      → sum_by (load f) (set_worker i v workers) + load f w ≡ sum_by (load f) workers + load f v
  unfolding worker_at set_worker
  set_worker-load f i v w [] h = ground arith
  set_worker-load f zero v w (x ∷ workers) h = ground arith
  set_worker-load f (suc i) v w (x ∷ workers) h = ground (arith, set_worker-load f i v w workers h)

  sum_by-append : (f : T → ℕ) (xs ys : List T) → sum_by f (xs ++ ys) ≡ sum_by f xs + sum_by f ys
  sum_by-append f [] ys = omega arith
  sum_by-append f (x ∷ xs) ys = omega (arith, sum_by-append f xs ys)

  after_enqueue-Balanced :
      (f : T → ℕ) (task : T) (p : ThreadPool T)
      → Balanced f p
      → Balanced f (after_enqueue p (enqueue_task task p))
  unfolding after_enqueue enqueue_task
  after_enqueue-Balanced f task p h =
      ground
        (arith, sum_by-append f p.tasks (task ∷ []), sum_by-append (λ t. 1) p.tasks (task ∷ []))

  take_task-Balanced :
      (f : T → ℕ) (i : ℕ) (tasks : List T) (p : ThreadPool T)
      → p.tasks ≡ tasks
      → worker_at i p.workers ≡ some waiting
      → Balanced f p
      → Balanced f (take_task i tasks p)
  unfolding take_task
  take_task-Balanced f i [] p e g h = ground (
    arith,
    set_worker-load f i exited waiting p.workers g,
    set_worker-load (λ t. 1) i exited waiting p.workers g,
  )
  take_task-Balanced f i (task ∷ tasks) p e g h = ground (
    arith,
    e,
    set_worker-load f i (busy task) waiting p.workers g,
    set_worker-load (λ t. 1) i (busy task) waiting p.workers g,
  )

  finish_task-Balanced :
      (f : T → ℕ) (i : ℕ) (task : T) (p : ThreadPool T)
      → worker_at i p.workers ≡ some (busy task)
      → Balanced f p
      → Balanced f (finish_task i task p)
  unfolding finish_task
  finish_task-Balanced f i task p g h = ground (
    arith,
    set_worker-load f i waiting (busy task) p.workers g,
    set_worker-load (λ t. 1) i waiting (busy task) p.workers g,
  )

  wake_worker-Balanced :
      (f : T → ℕ) (i : ℕ) (found : Option (PoolWorker T)) (p : ThreadPool T)
      → worker_at i p.workers ≡ found
      → Balanced f p
      → Balanced f (wake_worker i found p)
  unfolding wake_worker
  wake_worker-Balanced f i none p e h = h
  wake_worker-Balanced f i (some waiting) p e h = take_task-Balanced f i p.tasks p refl e h
  wake_worker-Balanced f i (some exited) p e h = h
  wake_worker-Balanced f i (some (busy task)) p e h = h

  finish_worker-Balanced :
      (f : T → ℕ) (i : ℕ) (found : Option (PoolWorker T)) (p : ThreadPool T)
      → worker_at i p.workers ≡ found
      → Balanced f p
      → Balanced f (finish_worker i found p)
  unfolding finish_worker
  finish_worker-Balanced f i none p e h = h
  finish_worker-Balanced f i (some waiting) p e h = h
  finish_worker-Balanced f i (some exited) p e h = h
  finish_worker-Balanced f i (some (busy task)) p e h = finish_task-Balanced f i task p e h

  pool_run-Balanced :
      (f : T → ℕ) (events : List (PoolEvent T)) (p : ThreadPool T)
      → Balanced f p
      → Balanced f (pool_run events p)
  unfolding pool_run pool_step
  pool_run-Balanced f [] p h = h
  pool_run-Balanced f (enqueued task ∷ events) p h =
      pool_run-Balanced f events _ (after_enqueue-Balanced f task p h)
  pool_run-Balanced f (woken i ∷ events) p h =
      pool_run-Balanced f events _ (wake_worker-Balanced f i _ p refl h)
  pool_run-Balanced f (done i ∷ events) p h =
      pool_run-Balanced f events _ (finish_worker-Balanced f i _ p refl h)
  pool_run-Balanced f (destroyed ∷ events) p h = pool_run-Balanced f events _ h

  load-replicate : (f : T → ℕ) (n : ℕ) → sum_by (load f) (replicate n waiting) ≡ 0
  load-replicate f zero = refl
  load-replicate f (suc n) = omega (arith, load-replicate f n)

  new_pool-Balanced : (f : T → ℕ) (n : ℕ) → Balanced f (new_pool n)
  unfolding new_pool
  new_pool-Balanced f n = ground (arith, load-replicate f n, load-replicate (λ t. 1) n)

  load-zero : (f : T → ℕ) (w : PoolWorker T) → load (λ t. 1) w ≡ 0 → load f w ≡ 0
  load-zero f waiting h = refl
  load-zero f exited h = refl
  load-zero f (busy task) h = ground arith

  -- In every history of a new pool, with any interleaving of its workers, whenever the predicate of
  -- `wait` holds, the finished tasks are the accepted ones: each was run as often as it was accepted.
  -- Fewer than 2^32 tasks were accepted.
  pub pool_run-all_done :
      (f : T → ℕ) (n : ℕ) (events : List (PoolEvent T))
      → sum_by (λ t. 1) (pool_run events (new_pool n)).accepted < 2 ^ 32
      → all_done (pool_run events (new_pool n)) ≡ true
      → sum_by f (pool_run events (new_pool n)).finished
        ≡ sum_by f (pool_run events (new_pool n)).accepted
  unfolding all_done
  pool_run-all_done f n events few ended =
      let p = pool_run events (new_pool n) in
      let of_f = pool_run-Balanced f events (new_pool n) (new_pool-Balanced f n) in
      let of_one = pool_run-Balanced (λ t. 1) events (new_pool n) (new_pool-Balanced (λ t. 1) n) in
      ground (
        arith,
        of_f,
        of_one,
        sum_by-zero f (λ t. 1) p.tasks (λ t e. ground arith),
        sum_by-zero (load f) (load (λ t. 1)) p.workers (load-zero f),
      )
