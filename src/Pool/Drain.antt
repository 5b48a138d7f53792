-- ===== src/Pool/Drain.antt =====
-- The shutdown: once the pool is stopped the workers come to an end, with the queue drained.
use nshgeoip.Prelude.{
  Bool-cases, length, ℕ, zero, suc, ◌+◌, ◌*◌, ◌<◌, ◌≡◌, refl, ap, ◌∙◌, ◌≢◌, ◌⊎◌, inl, inr, true,
  List, [], ◌∷◌, ◌++◌, arith,
}
use nshgeoip.Pool.{
  new_pool, submit, begin_shutdown, wake, finish, AllExited, Worker, waiting, busy, exited,
  ThreadPool, WorkerStep, wakes, finishes, Step, works, submits, stops, Reach, here, next,
}
use nshgeoip.Pool.Descriptors.{
  in_flight, count, count-append, HasExited, WorkerStep-Inv, Reach-Inv, Inv,
}

-- What a worker and a queued task may still do, at most.
abbrev weight : Worker → ℕ
weight waiting = 1
weight (busy fd) = 3
weight exited = 0

abbrev weights : List Worker → ℕ
weights [] = 0
weights (w ∷ ws) = weight w + weights ws

pub work_left : ThreadPool → ℕ
work_left p = 3 * length p.queue + weights p.workers

weights-put :
    (before after : List Worker) (w : Worker)
    → weights (before ++ w ∷ after) ≡ weights before + weight w + weights after
weights-put [] after w = omega arith
weights-put (x ∷ before) after w = omega (arith, weights-put before after w)

wake-work_left :
    (p : ThreadPool) (before after : List Worker) (tasks : List ℕ)
    → p.queue ≡ tasks
    → p.workers ≡ before ++ waiting ∷ after
    → work_left (wake p before after) < work_left p
unfolding work_left wake
wake-work_left p before after [] e w =
    rw (e, w) (omega (arith, weights-put before after waiting, weights-put before after exited))
wake-work_left p before after (fd ∷ rest) e w =
    rw (e, w) (omega (arith, weights-put before after waiting, weights-put before after (busy fd)))

-- Every step of a worker lowers a bound on what is left to do, three for a queued descriptor and at
-- most three for a worker, so no run of the workers alone goes on for ever.
pub WorkerStep-work_left : {p q : ThreadPool} → WorkerStep p q → work_left q < work_left p
unfolding work_left finish
WorkerStep-work_left (wakes p before after w ready) = wake-work_left p before after p.queue refl w
WorkerStep-work_left (finishes p before fd after w) =
    rw w (omega (arith, weights-put before after (busy fd), weights-put before after waiting))

-- Runs of the workers alone.
pub data WorkerRun : ThreadPool → ThreadPool → Type 0 where
  done : {p : ThreadPool} → WorkerRun p p
  more : {p q r : ThreadPool} → WorkerStep p q → WorkerRun q r → WorkerRun p r

-- Some worker has not exited; its neighbours are named.
abbrev Alive : List Worker → Type 0
Alive ws =
    (before : List Worker) × (w : Worker) × (after : List Worker) × (ws ≡ before ++ w ∷ after)
    × (w ≢ exited)

Alive-cons : (v : Worker) (ws : List Worker) → Alive ws → Alive (v ∷ ws)
Alive-cons v ws (before, w, after, e, n) = (v ∷ before, w, after, ap (◌∷◌ v) e, n)

find-Alive : (ws : List Worker) → AllExited ws ⊎ Alive ws
find-Alive [] = inl tt
find-Alive (waiting ∷ ws) = inr ([], waiting, ws, refl, (λ e. cc))
find-Alive (busy fd ∷ ws) = inr ([], busy fd, ws, refl, (λ e. cc))
find-Alive (exited ∷ ws) = elim (find-Alive ws) [
  | inl all ↦ inl (refl, all)
  | inr a ↦ inr (Alive-cons exited ws a)
]

-- In a stopped pool such a worker can take a step.
alive-WorkerStep :
    (p : ThreadPool) (before : List Worker) (w : Worker) (after : List Worker)
    → p.stop ≡ true
    → p.workers ≡ before ++ w ∷ after
    → w ≢ exited
    → (q : ThreadPool) × WorkerStep p q
alive-WorkerStep p before waiting after s e n =
    (wake p before after, wakes p before after e (ground arith))
alive-WorkerStep p before (busy fd) after s e n =
    (finish p before fd after, finishes p before fd after e)
alive-WorkerStep p before exited after s e n = absurd (n refl)

-- What the workers leave as it is.
WorkerStep-keeps :
    {p q : ThreadPool} → WorkerStep p q → (q.stop ≡ p.stop) × (q.accepted ≡ p.accepted)
unfolding wake finish
WorkerStep-keeps (wakes p before after w ready) = (refl, refl)
WorkerStep-keeps (finishes p before fd after w) = (refl, refl)

append-ne-nil : (before : List Worker) (w : Worker) (after : List Worker) → before ++ w ∷ after ≢ []
append-ne-nil [] w after e = cc
append-ne-nil (v ∷ before) w after e = cc

WorkerStep-ne-nil : {p q : ThreadPool} → WorkerStep p q → q.workers ≢ []
unfolding wake finish
WorkerStep-ne-nil (wakes p before after w ready) = append-ne-nil before _ after
WorkerStep-ne-nil (finishes p before fd after w) = append-ne-nil before waiting after

-- The state after the workers have run to the end.
pub record IsDrained (p q : ThreadPool) : Type 0 where
  pub all_exited : AllExited q.workers
  pub queue_empty : q.queue ≡ []
  pub accepted_kept : q.accepted ≡ p.accepted
  pub all_handled : (c : ℕ) → count c q.handled ≡ count c q.accepted

exited-HasExited : (ws : List Worker) → ws ≢ [] → AllExited ws → HasExited ws
exited-HasExited [] n h = absurd (n refl)
exited-HasExited (w ∷ ws) n h = inl h.0

exited-in_flight : (c : ℕ) (ws : List Worker) → AllExited ws → count c (in_flight ws) ≡ 0
exited-in_flight c [] h = refl
exited-in_flight c (waiting ∷ ws) h = absurd (cc (h.0))
exited-in_flight c (busy fd ∷ ws) h = absurd (cc (h.0))
exited-in_flight c (exited ∷ ws) h = exited-in_flight c ws h.1

exited-IsDrained : (p : ThreadPool) → Inv p → p.workers ≢ [] → AllExited p.workers → IsDrained p p
exited-IsDrained p v n h =
    let empty = (v.exit_drained (exited-HasExited p.workers n h)).1 in
    record {
      all_exited = h;
      queue_empty = empty;
      accepted_kept = refl;
      all_handled = λ c. omega (
        arith,
        v.once c,
        exited-in_flight c p.workers h,
        ap (count c) v.in_order,
        count-append c p.started p.queue,
        ap (count c) empty,
      );
    }

-- By induction on the work that is left.
drain :
    (fuel : ℕ) (p : ThreadPool)
    → work_left p < fuel
    → Inv p
    → p.workers ≢ []
    → p.stop ≡ true
    → (q : ThreadPool) × WorkerRun p q × IsDrained p q
drain zero p f v n s = absurd (omega arith)
drain (suc fuel) p f v n s = elim (find-Alive p.workers) [
  | inl all ↦ (p, done, exited-IsDrained p v n all)
  | inr (before, w, after, e, alive) ↦
      let (q, st) = alive-WorkerStep p before w after s e alive in
      let kept = WorkerStep-keeps st in
      let (r, run, d) =
        drain fuel q (omega (arith, WorkerStep-work_left st)) (WorkerStep-Inv st v)
          (WorkerStep-ne-nil st) (kept.0 ∙ s) in
      (
        r,
        more st run,
        record {
          all_exited = d.all_exited;
          queue_empty = d.queue_empty;
          accepted_kept = d.accepted_kept ∙ kept.1;
          all_handled = d.all_handled;
        },
      )
]

Step-ne-nil : {p q : ThreadPool} → Step p q → p.workers ≢ [] → q.workers ≢ []
unfolding submit begin_shutdown
Step-ne-nil (works s) n = WorkerStep-ne-nil s
Step-ne-nil (submits p fd) n = elim (Bool-cases p.stop) [ inl e ↦ simp e n | inr e ↦ simp e n ]
Step-ne-nil (stops p) n = elim (Bool-cases p.stop) [ inl e ↦ simp e n | inr e ↦ simp e n ]

Reach-ne-nil : (n : ℕ) {p : ThreadPool} → Reach (new_pool (suc n)) p → p.workers ≢ []
unfolding new_pool
Reach-ne-nil n here = λ e. cc
Reach-ne-nil n (next r s) = Step-ne-nil s (Reach-ne-nil n r)

-- From every state that a pool of at least one worker reaches, once it is stopped the workers have
-- a run after which all have exited, nothing is queued, no descriptor was added, and each descriptor
-- has been handled exactly as often as it was accepted.
pub shutdown_drains :
    (n : ℕ) {p : ThreadPool}
    → Reach (new_pool (suc n)) p
    → p.stop ≡ true
    → (q : ThreadPool) × WorkerRun p q × IsDrained p q
shutdown_drains n {p} r s =
    drain (suc (work_left p)) p (omega arith) (Reach-Inv (suc n) r) (Reach-ne-nil n r) s

-- In every state that a pool of at least one worker reaches and in which all workers have exited,
-- its queue is empty and each descriptor has been handled exactly as often as it was accepted.
pub Reach-IsDrained :
    (n : ℕ) {p : ThreadPool} → Reach (new_pool (suc n)) p → AllExited p.workers → IsDrained p p
Reach-IsDrained n {p} r h = exited-IsDrained p (Reach-Inv (suc n) r) (Reach-ne-nil n r) h
