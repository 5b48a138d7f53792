-- ===== src/Server/Run/Served.antt =====
-- Every connection that the loop accepts is served, whatever the workers do in between.
use nshgeoip.Prelude.{
  ℕ, suc, ◌-◌, ◌≡◌, refl, sym, ap, ◌∙◌, subst, true, false, List, [], ◌∷◌, ◌++◌, append-nil,
  append_assoc, arith,
}
use nshgeoip.Pool.{
  new_pool, submit, begin_shutdown, wake, finish, AllExited, ThreadPool, WorkerStep, wakes,
  finishes, works, submits, stops, Reach, here, next,
}
use nshgeoip.Pool.Descriptors.{count}
use nshgeoip.Pool.Drain.{shutdown_drains, WorkerRun, done, more}
use nshgeoip.Config.{Config}
use nshgeoip.Config.Bounds.{IsValid}
use nshgeoip.Server.Run.{run, Round}
use nshgeoip.Server.Run.Submitted.{begun, run-Returned, Returned}

-- The main thread submits the descriptors in order, and workers take steps at any time.
pub data Submits : ThreadPool → List ℕ → ThreadPool → Type 0 where
  rests : {p : ThreadPool} → Submits p [] p
  submitting :
      {p q : ThreadPool} (fd : ℕ) {fds : List ℕ}
      → Submits (submit p fd) fds q
      → Submits p (fd ∷ fds) q
  working : {p q r : ThreadPool} {fds : List ℕ} → WorkerStep p q → Submits q fds r → Submits p fds r

submit_open :
    (p : ThreadPool) (fd : ℕ)
    → p.stop ≡ false
    → ((submit p fd).stop ≡ false)
      × ((submit p fd).accepted ≡ p.accepted ++ fd ∷ [])
      × ((submit p fd).refused ≡ p.refused)
unfolding submit
submit_open p fd e = simp e (refl, refl, refl)

WorkerStep-kept :
    {p q : ThreadPool}
    → WorkerStep p q
    → (q.stop ≡ p.stop) × (q.accepted ≡ p.accepted) × (q.refused ≡ p.refused)
unfolding wake finish
WorkerStep-kept (wakes p before after w ready) = (refl, refl, refl)
WorkerStep-kept (finishes p before fd after w) = (refl, refl, refl)

Submits-all :
    {p q : ThreadPool} {fds : List ℕ}
    → Submits p fds q
    → p.stop ≡ false
    → (q.stop ≡ false) × (q.accepted ≡ p.accepted ++ fds) × (q.refused ≡ p.refused)
Submits-all {p} rests e = (e, sym (append-nil p.accepted), refl)
Submits-all {p} (submitting fd {fds} r) e =
    let (s, a, b) = submit_open p fd e in
    let (s', a', b') = Submits-all r s in
    (s', a' ∙ ap (λ t. t ++ fds) a ∙ append_assoc p.accepted (fd ∷ []) fds, b' ∙ b)
Submits-all (working {fds} w r) e =
    let (s, a, b) = WorkerStep-kept w in
    let (s', a', b') = Submits-all r (s ∙ e) in (s', a' ∙ ap (λ t. t ++ fds) a, b' ∙ b)

Submits-Reach : {p0 p q : ThreadPool} {fds : List ℕ} → Reach p0 p → Submits p fds q → Reach p0 q
Submits-Reach r rests = r
Submits-Reach r (submitting {p} fd t) = Submits-Reach (next r (submits p fd)) t
Submits-Reach r (working w t) = Submits-Reach (next r (works w)) t

-- The pool at the end: all workers have exited, each descriptor is handled as often as it was
-- accepted, and none was turned away.
pub record IsServed (fds : List ℕ) (q : ThreadPool) : Type 0 where
  pub exited : AllExited q.workers
  pub handled : (c : ℕ) → count c q.handled ≡ count c fds
  pub none_refused : q.refused ≡ []

begin_shutdown_keeps :
    (p : ThreadPool)
    → p.stop ≡ false
    → ((begin_shutdown p).stop ≡ true)
      × ((begin_shutdown p).accepted ≡ p.accepted)
      × ((begin_shutdown p).refused ≡ p.refused)
unfolding begin_shutdown
begin_shutdown_keeps p e = simp e (refl, refl, refl)

WorkerRun-refused : {p q : ThreadPool} → WorkerRun p q → q.refused ≡ p.refused
WorkerRun-refused done = refl
WorkerRun-refused (more w r) = WorkerRun-refused r ∙ (WorkerStep-kept w).2

served :
    (n : ℕ) (fds : List ℕ) {p : ThreadPool}
    → Submits (new_pool (suc n)) fds p
    → (q : ThreadPool) × WorkerRun (begin_shutdown p) q × IsServed fds q
unfolding new_pool
served n fds {p} t =
    let (open_still, all, fine) = Submits-all t refl in
    let (stopped, acc, ref) = begin_shutdown_keeps p open_still in
    let (q, steps, d) = shutdown_drains n (next (Submits-Reach here t) (stops p)) stopped in
    (
      q,
      steps,
      record {
        exited = d.all_exited;
        handled = λ c. d.all_handled c ∙ ap (count c) (d.accepted_kept ∙ acc ∙ all);
        none_refused = WorkerRun-refused steps ∙ ref ∙ fine;
      },
    )

-- Run with a configuration in its ranges: whatever the rounds of the loop meet, and whatever the
-- workers do while it submits what it accepts, once the shutdown has begun the workers have a run
-- after which all have exited, every descriptor that accept4() returned in the rounds that came about
-- (before the first failure on its listener) has been handled exactly as often as it was returned,
-- those of the round in which SIGTERM came included, and none was turned away.
pub run_serves :
    (cfg : Config) (now : ℕ) (rounds : List Round) (fds : List ℕ) {p : ThreadPool}
    → IsValid cfg
    → Returned (begun rounds) fds
    → Submits (new_pool cfg.threads) (run cfg now rounds).submitted p
    → (q : ThreadPool) × WorkerRun (begin_shutdown p) q × IsServed fds q
run_serves cfg now rounds fds {p} v h t = served (cfg.threads - 1) fds (
    subst (λ s. Submits (new_pool (suc (cfg.threads - 1))) s p) (run-Returned cfg now rounds h)
      (subst (λ n. Submits (new_pool n) (run cfg now rounds).submitted p) (omega (arith, v.1.0)) t))
