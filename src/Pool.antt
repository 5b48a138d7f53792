-- ===== src/Pool.antt =====
-- src/thread_pool.cpp: the worker pool. The mutex makes each critical section one step; the
-- condition variable only decides when a waiting worker looks again, so a worker may wake
-- whenever its wait predicate holds. File descriptors are numbers.
pub mod Descriptors
pub mod Drain
use nshgeoip.Prelude.{
  if◌then◌else◌, All, is_empty, ℕ, zero, suc, ◌≡◌, Bool, true, false, not, ◌||◌, List, [], ◌∷◌,
  ◌++◌,
}

-- Where a worker stands in `worker_loop`.
pub data Worker : Type 0 where
  waiting : Worker
  busy : ℕ → Worker
  exited : Worker

-- `accepted` and `handled` record the history: what `submit` queued, and what the handler has
-- returned from, each in order; `refused` holds what `submit` closed.
pub record ThreadPool : Type 0 where
  pub queue : List ℕ
  pub stop : Bool
  pub workers : List Worker
  pub accepted : List ℕ
  pub started : List ℕ
  pub handled : List ℕ
  pub refused : List ℕ

abbrev pub idle_workers : ℕ → List Worker
idle_workers zero = []
idle_workers (suc n) = waiting ∷ idle_workers n

-- The constructor.
unfoldable pub new_pool : ℕ → ThreadPool
new_pool num_threads = record {
  queue = [];
  stop = false;
  workers = idle_workers num_threads;
  accepted = [];
  started = [];
  handled = [];
  refused = [];
}

unfoldable pub submit : ThreadPool → ℕ → ThreadPool
submit p fd =
    if p.stop
    then record p { refused = fd ∷ p.refused }
    else record p { queue = p.queue ++ fd ∷ []; accepted = p.accepted ++ fd ∷ [] }

-- The first block of `shutdown`, which does nothing the second time.
unfoldable pub begin_shutdown : ThreadPool → ThreadPool
begin_shutdown p = if p.stop then p else record p { stop = true }

-- The predicate of `cv_.wait`.
abbrev pub is_ready : Bool → List ℕ → Bool
is_ready stop queue = stop || not (is_empty queue)

-- One round of `worker_loop` under the lock, once the predicate holds: what becomes of the worker
-- and of the queue.
unfoldable pub take_task : List ℕ → Worker × List ℕ
take_task [] = (exited, [])
take_task (fd ∷ rest) = (busy fd, rest)

abbrev pub started_by : Worker → List ℕ
started_by (busy fd) = fd ∷ []
started_by _ = []

-- The pool after that round of the worker between `before` and `after`.
unfoldable pub wake : ThreadPool → List Worker → List Worker → ThreadPool
unfolding take_task
wake p before after =
    let (w, rest) = take_task p.queue in
    record p { queue = rest; workers = before ++ w ∷ after; started = p.started ++ started_by w }

-- The handler returns.
unfoldable pub finish : ThreadPool → List Worker → ℕ → List Worker → ThreadPool
finish p before fd after = record p {
  workers = before ++ waiting ∷ after;
  handled = p.handled ++ fd ∷ [];
}

-- A step of some worker.
pub data WorkerStep : ThreadPool → ThreadPool → Type 0 where
  wakes :
      (p : ThreadPool) (before after : List Worker)
      → p.workers ≡ before ++ waiting ∷ after
      → is_ready p.stop p.queue ≡ true
      → WorkerStep p (wake p before after)
  finishes :
      (p : ThreadPool) (before : List Worker) (fd : ℕ) (after : List Worker)
      → p.workers ≡ before ++ busy fd ∷ after
      → WorkerStep p (finish p before fd after)

-- A step of the pool: of a worker, or of the accept loop's thread.
pub data Step : ThreadPool → ThreadPool → Type 0 where
  works : {p q : ThreadPool} → WorkerStep p q → Step p q
  submits : (p : ThreadPool) (fd : ℕ) → Step p (submit p fd)
  stops : (p : ThreadPool) → Step p (begin_shutdown p)

pub data Reach (p : ThreadPool) : ThreadPool → Type 0 where
  here : Reach p p
  next : {q r : ThreadPool} → Reach p q → Step q r → Reach p r

-- `join` has returned for every worker.
abbrev pub AllExited : List Worker → Type 0
AllExited = All (λ w. w ≡ exited)
