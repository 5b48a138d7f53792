-- ===== src/Pool/Descriptors.antt =====
-- What becomes of each file descriptor.
use nshgeoip.Prelude.{
  ◌==◌, if◌then◌else◌, Bool-cases, ℕ, zero, suc, ◌+◌, ◌≡◌, refl, sym, ap, ◌∙◌, subst, ◌⊎◌, inl, inr,
  true, List, [], ◌∷◌, ◌++◌, append-nil, append_assoc, arith,
}
use nshgeoip.Pool.{
  idle_workers, new_pool, submit, begin_shutdown, is_ready, started_by, wake, finish, Worker,
  waiting, busy, exited, ThreadPool, WorkerStep, wakes, finishes, Step, works, submits, stops,
  Reach, here, next,
}

abbrev pub in_flight : List Worker → List ℕ
in_flight [] = []
in_flight (w ∷ ws) = started_by w ++ in_flight ws

abbrev pub count : ℕ → List ℕ → ℕ
count c [] = 0
count c (x ∷ xs) = (if x == c then 1 else 0) + count c xs

pub count-append : (c : ℕ) (xs ys : List ℕ) → count c (xs ++ ys) ≡ count c xs + count c ys
count-append c [] ys = omega arith
count-append c (x ∷ xs) ys = omega (arith, count-append c xs ys)

count-in_flight :
    (c : ℕ) (before after : List Worker) (w : Worker)
    → count c (in_flight (before ++ w ∷ after))
      ≡ count c (in_flight before) + count c (started_by w) + count c (in_flight after)
count-in_flight c [] after w = omega (arith, count-append c (started_by w) (in_flight after))
count-in_flight c (v ∷ before) after w = omega (
  arith,
  count-append c (started_by v) (in_flight (before ++ w ∷ after)),
  count-append c (started_by v) (in_flight before),
  count-in_flight c before after w,
)

-- An exited worker has left a stopped pool with an empty queue.
abbrev pub HasExited : List Worker → Type 0
HasExited [] = ⊥
HasExited (w ∷ ws) = (w ≡ exited) ⊎ HasExited ws

pub record Inv (p : ThreadPool) : Type 0 where
  -- Tasks start in the order in which they were accepted.
  pub in_order : p.accepted ≡ p.started ++ p.queue
  -- What was started is in flight or handled, each descriptor as often.
  pub once : (c : ℕ) → count c p.started ≡ count c (in_flight p.workers) + count c p.handled
  pub exit_drained : HasExited p.workers → (p.stop ≡ true) × (p.queue ≡ [])

HasExited-put :
    (before after : List Worker) (v w : Worker)
    → (w ≡ exited → ⊥)
    → HasExited (before ++ w ∷ after)
    → HasExited (before ++ v ∷ after)
HasExited-put [] after v w n (inl e) = absurd (n e)
HasExited-put [] after v w n (inr h) = inr h
HasExited-put (x ∷ before) after v w n (inl e) = inl e
HasExited-put (x ∷ before) after v w n (inr h) = inr (HasExited-put before after v w n h)

wake-Inv :
    (p : ThreadPool) (before after : List Worker) (tasks : List ℕ)
    → p.queue ≡ tasks
    → p.workers ≡ before ++ waiting ∷ after
    → is_ready p.stop p.queue ≡ true
    → Inv p
    → Inv (wake p before after)
unfolding wake
wake-Inv p before after [] e w ready v = rw e (record {
  in_order = cc (v.in_order, append-nil p.started);
  once = λ c. omega (
    arith,
    v.once c,
    ap (λ ws. count c (in_flight ws)) w,
    count-in_flight c before after waiting,
    count-in_flight c before after exited,
    ap (count c) (append-nil p.started),
  );
  exit_drained = λ h. (ground (arith, ready), refl);
})
wake-Inv p before after (fd ∷ rest) e w ready v = rw e (record {
  in_order = v.in_order ∙ rw (e, append_assoc);
  once = λ c. omega (
    arith,
    v.once c,
    ap (λ ws. count c (in_flight ws)) w,
    count-in_flight c before after waiting,
    count-in_flight c before after (busy fd),
    count-append c p.started (fd ∷ []),
  );
  exit_drained = λ h.
      let exits = HasExited-put before after waiting (busy fd) (λ b. cc) h in
      cc (e, (v.exit_drained (subst HasExited (sym w) exits)).1);
})

finish-Inv :
    (p : ThreadPool) (before : List Worker) (fd : ℕ) (after : List Worker)
    → p.workers ≡ before ++ busy fd ∷ after
    → Inv p
    → Inv (finish p before fd after)
unfolding finish
finish-Inv p before fd after w v = record {
  in_order = v.in_order;
  once = λ c. omega (
    arith,
    v.once c,
    ap (λ ws. count c (in_flight ws)) w,
    count-in_flight c before after (busy fd),
    count-in_flight c before after waiting,
    count-append c p.handled (fd ∷ []),
  );
  exit_drained = λ h.
      v.exit_drained
        (subst HasExited (sym w) (HasExited-put before after (busy fd) waiting (λ e. cc) h));
}

submit-Inv : (p : ThreadPool) (fd : ℕ) → Inv p → Inv (submit p fd)
unfolding submit
submit-Inv p fd v = elim (Bool-cases p.stop) [
  | inl e ↦ simp e (record {
    in_order = v.in_order;
    once = v.once;
    exit_drained = λ h. (refl, (v.exit_drained h).1);
  })
  | inr e ↦ simp e (record {
    in_order = ap (λ t. t ++ fd ∷ []) v.in_order ∙ append_assoc p.started p.queue (fd ∷ []);
    once = v.once;
    exit_drained = λ h. cc (e, (v.exit_drained h).0);
  })
]

begin_shutdown-Inv : (p : ThreadPool) → Inv p → Inv (begin_shutdown p)
unfolding begin_shutdown
begin_shutdown-Inv p v = elim (Bool-cases p.stop) [
  | inl e ↦ simp e v
  | inr e ↦ simp e (record {
    in_order = v.in_order;
    once = v.once;
    exit_drained = λ h. cc (e, (v.exit_drained h).0);
  })
]

pub WorkerStep-Inv : {p q : ThreadPool} → WorkerStep p q → Inv p → Inv q
WorkerStep-Inv (wakes p before after w ready) v = wake-Inv p before after p.queue refl w ready v
WorkerStep-Inv (finishes p before fd after w) v = finish-Inv p before fd after w v

Step-Inv : {p q : ThreadPool} → Step p q → Inv p → Inv q
Step-Inv (works s) v = WorkerStep-Inv s v
Step-Inv (submits p fd) v = submit-Inv p fd v
Step-Inv (stops p) v = begin_shutdown-Inv p v

idle-none : (n c : ℕ) → count c (in_flight (idle_workers n)) ≡ 0
idle-none zero c = refl
idle-none (suc n) c = idle-none n c

idle-HasExited : (n : ℕ) → HasExited (idle_workers n) → ⊥
idle-HasExited zero h = h
idle-HasExited (suc n) (inl e) = cc
idle-HasExited (suc n) (inr h) = idle-HasExited n h

new_pool-Inv : (n : ℕ) → Inv (new_pool n)
unfolding new_pool
new_pool-Inv n = record {
  in_order = refl;
  once = λ c. omega (arith, idle-none n c);
  exit_drained = λ h. absurd (idle-HasExited n h);
}

-- In every state that the pool can reach, whatever the interleaving of submissions, workers and
-- the shutdown: tasks start in the order in which they were accepted, each accepted descriptor is
-- queued, in flight or handled exactly as often as it was accepted, and a worker has exited only
-- once the pool is stopped and its queue is empty.
pub Reach-Inv : (n : ℕ) {p : ThreadPool} → Reach (new_pool n) p → Inv p
Reach-Inv n here = new_pool-Inv n
Reach-Inv n (next r s) = Step-Inv s (Reach-Inv n r)
