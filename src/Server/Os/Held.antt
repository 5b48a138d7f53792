-- ===== src/Server/Os/Held.antt =====
-- The balance of the descriptors: what was opened is closed or held.
use nshgeoip.Prelude.{Bytes, ℕ, ◌+◌, ◌≡◌, Option, none, some, List, [], ◌∷◌, ◌++◌, arith}
use nshgeoip.Pool.Descriptors.{count}
use nshgeoip.Server.Os.{
  Trace, M, throw, call, must, Call, signalfd, socket_unix, socket_tcp, close_fd, Answer, done,
  errs, Os, ServerState,
}
use nshgeoip.Server.Os.Rules.{call-Triple, must-Triple, Triple}

-- The descriptors that a call gave, and those that it took back.
abbrev pub opens : Call → Answer → List ℕ
opens (signalfd mask) (done fd) = fd ∷ []
opens (socket_unix b) (done fd) = fd ∷ []
opens (socket_tcp f) (done fd) = fd ∷ []
opens _ _ = []

abbrev pub closes : Call → List ℕ
closes (close_fd fd) = fd ∷ []
closes _ = []

abbrev pub opened_fds : Trace → List ℕ
opened_fds [] = []
opened_fds ((c, a) ∷ t) = opens c a ++ opened_fds t

abbrev pub closed_fds : Trace → List ℕ
closed_fds [] = []
closed_fds ((c, a) ∷ t) = closes c ++ closed_fds t

abbrev pub optional : Option ℕ → List ℕ
optional none = []
optional (some fd) = fd ∷ []

-- What is known of `listen_fd` and `signal_fd`.
abbrev pub Frame : Type 1
Frame = Option ℕ → Option ℕ → Type 0

abbrev pub anything : Frame
anything l g = Unit

abbrev pub no_listener : Frame
no_listener l g = l ≡ none

abbrev pub neither : Frame
neither l g = (l ≡ none) × (g ≡ none)

module _ {Handle : Type 0} where
  -- What was opened is closed, held by the members, or among `more`, each as often.
  abbrev pub Balanced : List ℕ → ServerState Handle → Type 0
  Balanced more s =
      (c : ℕ)
      → count c (opened_fds s.trace)
        ≡ count c (closed_fds s.trace)
          + (count c (optional s.listen_fd)
              + count c s.tcp_listen_fds
              + count c (optional s.signal_fd))
          + count c more

  abbrev pub Held : Frame → List ℕ → ServerState Handle → Type 0
  Held R more s = R s.listen_fd s.signal_fd × Balanced more s

module _ {Handle : Type 0} (os : Os Handle) (R : Frame) where
  abbrev pub Keeps : {A : Type 0} → M (ServerState Handle) A → Type 0
  Keeps m = Triple (Held R []) m (λ _. Held R []) (Held anything [])

  pub quiet-Triple :
      (c : Call) (more : List ℕ)
      → ((a : Answer) → opens c a ≡ [])
      → closes c ≡ []
      → Triple (Held R more) (call os c) (λ _. Held R more) (Held anything [])
  quiet-Triple c more h k = call-Triple os c (λ s a p. (p.0, λ x. rw (h a, k) (p.1 x)))

  pub quiet_must :
      (c : Call) (message : Bytes → Bytes)
      → ((a : Answer) → opens c a ≡ [])
      → closes c ≡ []
      → Keeps (must os c message)
  quiet_must c message h k =
      must-Triple os c message (λ s n p. (p.0, λ x. rw (h (done n), k) (p.1 x)))
        (λ s e p. (tt, λ x. rw (h (errs e), k) (p.1 x)))

  pub opening-Triple :
      (c : Call) (message : Bytes → Bytes)
      → ((fd : ℕ) → opens c (done fd) ≡ fd ∷ [])
      → ((e : ℕ) → opens c (errs e) ≡ [])
      → closes c ≡ []
      → Triple (Held R []) (must os c message) (λ fd. Held R (fd ∷ [])) (Held anything [])
  opening-Triple c message h e k =
      must-Triple os c message (λ s n p. (p.0, λ x. rw (h n, k) (omega (arith, p.1 x))))
        (λ s n p. (tt, λ x. rw (e n, k) (p.1 x)))

  pub closing-Triple :
      (fd : ℕ)
      → Triple (Held R (fd ∷ [])) (call os (close_fd fd)) (λ _. Held R []) (Held anything [])
  closing-Triple fd = call-Triple os (close_fd fd) (λ s a p. (p.0, λ x. omega (arith, p.1 x)))

  pub throws-Triple :
      {A : Type 0} {Q : A → ServerState Handle → Type 0} (err : Bytes)
      → Triple (Held R []) (throw err) Q (Held anything [])
  unfolding throw
  throws-Triple err = record { ends = λ s p. (tt, p.1) }
