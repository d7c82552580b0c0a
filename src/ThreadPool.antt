-- ===== src/ThreadPool.antt =====
-- `ThreadPool` of packages/libfers/src/core/thread_pool.h and .cpp: the critical sections of its calls
-- and of its workers, as events that come in any order. A task is what it computes; that it throws is
-- only logged.
pub mod Waiting
use fers.Base.{
  ℕ, zero, suc, ◌+◌, ◌-◌, ◌^◌, ◌%◌, Bool, true, false, List, [], ◌∷◌, ◌++◌, Option, none, some,
  Result, ok, err, ◌>>◌, throw_if, runtime_error, if◌then◌else◌, ltb, ◌==◌, length, replicate,
}

-- Where a worker's thread is: before its wait, in a task, or at its end.
pub data PoolWorker (T : Type 0) : Type 0 where
  waiting exited : PoolWorker T
  busy : T → PoolWorker T

-- `accepted` and `finished` list the tasks that were enqueued and those that were run.
pub record ThreadPool (T : Type 0) : Type 0 where
  pub workers : List (PoolWorker T)
  pub tasks : List T
  pub stop : Bool
  pub pending_tasks : ℕ
  pub accepted : List T
  pub finished : List T

pub data PoolEvent (T : Type 0) : Type 0 where
  enqueued : T → PoolEvent T
  woken done : ℕ → PoolEvent T
  destroyed : PoolEvent T

module _ {T : Type 0} where
  unfoldable pub new_pool : ℕ → ThreadPool T
  new_pool num_threads = record {
    workers = replicate num_threads waiting;
    tasks = [];
    stop = false;
    pending_tasks = 0;
    accepted = [];
    finished = [];
  }

  unfoldable pub enqueue_task : T → ThreadPool T → Result (ThreadPool T)
  enqueue_task task p = do
    throw_if p.stop runtime_error
    ok (record p {
      pending_tasks = (p.pending_tasks + 1) % 2 ^ 32;
      tasks = p.tasks ++ task ∷ [];
      accepted = task ∷ p.accepted;
    })

  unfoldable pub worker_at : ℕ → List (PoolWorker T) → Option (PoolWorker T)
  worker_at i [] = none
  worker_at zero (w ∷ workers) = some w
  worker_at (suc i) (w ∷ workers) = worker_at i workers

  unfoldable pub set_worker : ℕ → PoolWorker T → List (PoolWorker T) → List (PoolWorker T)
  set_worker i v [] = []
  set_worker zero v (w ∷ workers) = v ∷ workers
  set_worker (suc i) v (w ∷ workers) = w ∷ set_worker i v workers

  -- A worker that has the mutex in its wait: it waits on, ends, or takes the first task.
  unfoldable pub take_task : ℕ → List T → ThreadPool T → ThreadPool T
  take_task i [] p = if p.stop then record p { workers = set_worker i exited p.workers } else p
  take_task i (task ∷ tasks) p = record p {
    tasks = tasks;
    workers = set_worker i (busy task) p.workers;
  }

  -- The end of a task: `--_pending_tasks`.
  unfoldable pub finish_task : ℕ → T → ThreadPool T → ThreadPool T
  finish_task i task p = record p {
    workers = set_worker i waiting p.workers;
    pending_tasks = (p.pending_tasks + (2 ^ 32 - 1)) % 2 ^ 32;
    finished = task ∷ p.finished;
  }

  -- The predicate that `wait` waits for.
  unfoldable pub all_done : ThreadPool T → Bool
  all_done p = p.pending_tasks == 0

  unfoldable pub get_available_threads : ThreadPool T → Result ℕ
  get_available_threads p = do
    throw_if (ltb (2 ^ 32 - 1) (length p.workers)) runtime_error
    ok (if ltb p.pending_tasks (length p.workers) then length p.workers - p.pending_tasks else 0)

  unfoldable pub after_enqueue : ThreadPool T → Result (ThreadPool T) → ThreadPool T
  after_enqueue p (ok next) = next
  after_enqueue p (err e) = p

  unfoldable pub wake_worker : ℕ → Option (PoolWorker T) → ThreadPool T → ThreadPool T
  wake_worker i (some waiting) p = take_task i p.tasks p
  wake_worker i _ p = p

  unfoldable pub finish_worker : ℕ → Option (PoolWorker T) → ThreadPool T → ThreadPool T
  finish_worker i (some (busy task)) p = finish_task i task p
  finish_worker i _ p = p

  -- An event that is not possible changes nothing.
  unfoldable pub pool_step : PoolEvent T → ThreadPool T → ThreadPool T
  pool_step (enqueued task) p = after_enqueue p (enqueue_task task p)
  pool_step (woken i) p = wake_worker i (worker_at i p.workers) p
  pool_step (done i) p = finish_worker i (worker_at i p.workers) p
  pool_step destroyed p = record p { stop = true }

  -- A history, from its first event.
  unfoldable pub pool_run : List (PoolEvent T) → ThreadPool T → ThreadPool T
  pool_run [] p = p
  pool_run (e ∷ events) p = pool_run events (pool_step e p)
