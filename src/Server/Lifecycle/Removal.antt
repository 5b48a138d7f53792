-- ===== src/Server/Lifecycle/Removal.antt =====
-- Removals of the socket's path: when they are safe, and the functions that remove.
use nshgeoip.Prelude.{
  ◌==◌, Bool-cases, Bytes, ℕ, ◌≡◌, refl, sym, ap, subst, ◌⊎◌, inl, inr, Bool, true, false, [], ◌∷◌,
}
use nshgeoip.Server.Os.{
  Trace, enoent, is_socket, is_done, ret, throw, call, Call, socket_unix, connect_unix, bind_unix,
  close_fd, lstat, unlink, Answer, done, errs, Os, ServerState,
}
use nshgeoip.Server.Os.Rules.{
  >>=-Triple, ret-Triple, modify-Triple, if-Triple, weaken-Triple, call-Triple, must-Triple, Triple,
}
use nshgeoip.Server.Listen.{sun_path, probe, path_has_live_listener, remove_stale, clear_path}
use nshgeoip.Server.Lifecycle.{unlink_if, remove_socket}
use nshgeoip.Server.Lifecycle.Quiet.{IsQuiet, Known, At, Lasts}

-- The latest calls found a socket at the path that nobody accepts connections on: lstat() said that
-- it is a socket, and connect() failed, or no socket was to be had for the probe.
pub data Stale (path : Bytes) : Trace → Type 0 where
  refused :
      (fd mode e : ℕ) (a : Answer) (t : Trace)
      → is_socket mode ≡ true
      → Stale path (
          (close_fd fd, a)
          ∷ (connect_unix fd (sun_path path), errs e)
          ∷ (socket_unix false, done fd)
          ∷ (lstat path, done mode)
          ∷ t)
  unprobed :
      (mode e : ℕ) (t : Trace)
      → is_socket mode ≡ true
      → Stale path ((socket_unix false, errs e) ∷ (lstat path, done mode) ∷ t)

-- The server has bound its socket to the path.
abbrev pub Bound : Bytes → Trace → Type 0
Bound path [] = ⊥
Bound path ((bind_unix fd bound, done n) ∷ t) = (bound ≡ sun_path path) ⊎ Bound path t
Bound path ((c, a) ∷ t) = Bound path t

-- Every unlink() came when the path was stale or the server's own.
abbrev pub Guarded : Trace → Type 0
Guarded [] = Unit
Guarded ((unlink path, a) ∷ t) = (Stale path t ⊎ Bound path t) × Guarded t
Guarded ((c, a) ∷ t) = Guarded t

-- What is known at each moment: a socket that was created was bound.
abbrev pub Safe : Bytes → Known
Safe path t created = Guarded t × (created ≡ true → Bound path t)

pub Safe-Lasts : (path : Bytes) → Lasts (Safe path)
Safe-Lasts path (unlink other) a t b q p = absurd q
Safe-Lasts path (bind_unix fd bound) a t b q p = absurd q
Safe-Lasts path _ a t b q p = p

Stale-probe :
    (path : Bytes) (fd mode : ℕ) (a rc : Answer) (t : Trace)
    → is_socket mode ≡ true
    → is_done rc ≡ false
    → Stale path (
        (close_fd fd, a)
        ∷ (connect_unix fd (sun_path path), rc)
        ∷ (socket_unix false, done fd)
        ∷ (lstat path, done mode)
        ∷ t)
Stale-probe path fd mode a (done n) t h e = cc
Stale-probe path fd mode a (errs n) t h e = refused fd mode n a t h

module _ {Handle : Type 0} (os : Os Handle) (path : Bytes) where
  -- The trace is known to start with some calls.
  abbrev pub Latest : (Trace → Trace) → ServerState Handle → Type 0
  Latest calls s = At (Safe path) s × ((t : Trace) × (s.trace ≡ calls t))

  Latest-Triple :
      (calls : Trace → Trace) (c : Call)
      → IsQuiet c
      → Triple (Latest calls) (call os c) (λ a. Latest (λ t. (c, a) ∷ calls t)) (At (Safe path))
  Latest-Triple calls c q = call-Triple os c (λ s a p.
      (Safe-Lasts path c a s.trace s.socket_created q p.0, (p.1.0, ap (λ t. (c, a) ∷ t) p.1.1)))

  -- Nobody listens, and the trace says why.
  abbrev Probed : Bool → ServerState Handle → Type 0
  Probed live s = At (Safe path) s × (live ≡ false → Stale path s.trace)

  module _ (mode : ℕ) (sock : is_socket mode ≡ true) where
    probe-Probed :
        (a : Answer)
        → Triple
            (Latest (λ t. (socket_unix false, a) ∷ (lstat path, done mode) ∷ t))
            (probe os path a)
            Probed
            (At (Safe path))
    unfolding probe ret
    probe-Probed (errs e) =
        weaken-Triple (ret-Triple false)
          (λ live s p. (p.0, λ _. subst (Stale path) (sym p.1.1) (unprobed mode e p.1.0 sock)))
    probe-Probed (done fd) = >>=-Triple (Latest-Triple _ (connect_unix fd (sun_path path)) tt) λ rc.
        >>=-Triple (Latest-Triple _ (close_fd fd) tt) λ a. record {
          ends = λ s p. (
            p.0,
            λ e. subst (Stale path) (sym p.1.1) (Stale-probe path fd mode a rc p.1.0 sock e),
          );
        }

    path_has_live_listener-Probed :
        Triple
          (Latest (λ t. (lstat path, done mode) ∷ t))
          (path_has_live_listener os path)
          Probed
          (At (Safe path))
    unfolding path_has_live_listener
    path_has_live_listener-Probed = >>=-Triple (Latest-Triple _ (socket_unix false) tt) probe-Probed

  remove_stale-Safe :
      (live : Bool)
      → Triple (Probed live) (remove_stale os path live) (λ _. At (Safe path)) (At (Safe path))
  unfolding remove_stale throw
  remove_stale-Safe true = record { ends = λ s p. p.0 }
  remove_stale-Safe false =
      >>=-Triple
        (must-Triple os (unlink path) _ (λ s n p. ((inl (p.1 refl), p.0.0), p.0.1))
          (λ s e p. ((inl (p.1 refl), p.0.0), p.0.1)))
        λ _. ret-Triple tt

  pub clear_path-Safe :
      (a : Answer)
      → Triple
          (Latest (λ t. (lstat path, a) ∷ t))
          (clear_path os path a)
          (λ _. At (Safe path))
          (At (Safe path))
  unfolding clear_path throw ret
  clear_path-Safe (errs e) =
      if-Triple (e == enoent) (record { ends = λ s p. p.0 }) (record { ends = λ s p. p.0 })
  clear_path-Safe (done mode) = elim (Bool-cases (is_socket mode)) [
    | inl h ↦ rw h (>>=-Triple (path_has_live_listener-Probed mode h) remove_stale-Safe)
    | inr h ↦ rw h (record { ends = λ s p. p.0 })
  ]

  unlink_if-Safe :
      (created : Bool)
      → Triple
          (λ s. At (Safe path) s × (created ≡ true → Bound path s.trace))
          (unlink_if os path created)
          (λ _. At (Safe path))
          (At (Safe path))
  unfolding unlink_if ret
  unlink_if-Safe false = record { ends = λ s p. p.0 }
  unlink_if-Safe true =
      >>=-Triple (call-Triple os (unlink path) (λ s a p. ((inr (p.1 refl), p.0.0), p.0.1)))
        λ _. ret-Triple tt

  pub remove_socket-Safe :
      Triple (At (Safe path)) (remove_socket os path) (λ _. At (Safe path)) (At (Safe path))
  unfolding remove_socket
  remove_socket-Safe =
      >>=-Triple (record { ends = λ s p. (unlink_if-Safe s.socket_created).ends s (p, p.1) })
        λ _. modify-Triple _ (λ s p. (p.0, λ e. cc))
