-- ===== src/Server/Listen/Members.antt =====
-- Functions that make calls and leave the members alone.
use nshgeoip.Prelude.{◌==◌, Bytes, ℕ, Bool, true, false, Option, none, some, List, [], ◌∷◌, ◌++◌}
use nshgeoip.Ip.{Family, af_unspec, af_inet, af_inet6}
use nshgeoip.Geoip.{GeoIpDatabases}
use nshgeoip.Server.Os.{
  Trace, eexist, enoent, is_socket, is_directory, M, throw, call, must, Call, socket_unix,
  connect_unix, v6_only, close_fd, mkdir, lstat, access_write, unlink, Answer, done, errs, Os,
  ServerState,
}
use nshgeoip.Server.Os.Rules.{
  >>=-Triple, ret-Triple, throw-Triple, if-Triple, call-Triple, must-Triple, Triple,
}
use nshgeoip.Server.Listen.{
  probe, path_has_live_listener, check_directory, made_directory, ensure_parent, remove_stale,
  clear_path, closed_unless, or_close, only_v6,
}
use nshgeoip.Server.Listen.Ran.{v6_calls, Ran, gave, then_did}

-- A fact about the calls and the members.
abbrev pub Fact : Type 0 → Type 1
Fact Handle = Trace → Option ℕ → List ℕ → Option ℕ → Bool → GeoIpDatabases Handle → Type 0

module _ {Handle : Type 0} where
  abbrev pub On : Fact Handle → ServerState Handle → Type 0
  On J s = J s.trace s.listen_fd s.tcp_listen_fds s.signal_fd s.socket_created s.db

  abbrev pub Leads : {A : Type 0} → Fact Handle → M (ServerState Handle) A → Fact Handle → Type 0
  Leads J m K = Triple (On J) m (λ _. On K) (λ _. Unit {0})

  -- One more call changes nothing in the fact.
  abbrev pub Grows : Fact Handle → Type 0
  Grows J =
      (s : ServerState Handle) (x : Call × Answer)
      → On J s
      → On J (record s { trace = x ∷ s.trace })

  -- With the calls that followed socket() or signalfd().
  abbrev pub Just : Fact Handle → Call → ℕ → List Call → Fact Handle
  Just K opening fd calls t l ts g created db = K t l ts g created db × Ran opening fd calls t

module _ {Handle : Type 0} (os : Os Handle) where
  module _ (J : Fact Handle) (grows : Grows J) where
    pub call-Leads : (c : Call) → Leads J (call os c) J
    call-Leads c = call-Triple os c (λ s a p. grows s _ p)

    pub must-Leads : (c : Call) (message : Bytes → Bytes) → Leads J (must os c message) J
    must-Leads c message = must-Triple os c message (λ s n p. grows s _ p) (λ s e p. tt)

    -- A call that must give a descriptor, and one behind it that must succeed.
    pub opening-Leads :
        (c : Call) (message : Bytes → Bytes)
        → Triple (On J) (must os c message) (λ fd. On (Just J c fd [])) (λ _. Unit {0})
    opening-Leads c message =
        must-Triple os c message (λ s n p. (grows s _ p, gave s.trace)) (λ s e p. tt)

    pub further-Leads :
        (opening : Call) (fd : ℕ) (calls : List Call) (c : Call) (message : Bytes → Bytes)
        → Leads (Just J opening fd calls) (must os c message) (Just J opening fd (c ∷ calls))
    further-Leads opening fd calls c message =
        must-Triple os c message (λ s n p. (grows s _ p.0, then_did c n p.1)) (λ s e p. tt)

    pub throw-Leads :
        {A : Type 0} {Q : A → ServerState Handle → Type 0} (err : Bytes)
        → Triple (On J) (throw err) Q (λ _. Unit {0})
    unfolding throw
    throw-Leads err = record { ends = λ s p. tt }

    check_directory-Leads : (dir : Bytes) (mode : ℕ) → Leads J (check_directory os dir mode) J
    unfolding check_directory
    check_directory-Leads dir mode =
        if-Triple (is_directory mode)
          (>>=-Triple (must-Leads (access_write dir) _) λ _. ret-Triple tt) (throw-Leads _)

    made_directory-Leads : (dir : Bytes) (a : Answer) → Leads J (made_directory os dir a) J
    unfolding made_directory
    made_directory-Leads dir (done n) = ret-Triple tt
    made_directory-Leads dir (errs e) =
        if-Triple (e == eexist) (>>=-Triple (must-Leads (lstat dir) _) (check_directory-Leads dir))
          (throw-Leads _)

    pub ensure_parent-Leads : (o : Option Bytes) → Leads J (ensure_parent os o) J
    unfolding ensure_parent
    ensure_parent-Leads none = ret-Triple tt
    ensure_parent-Leads (some []) = ret-Triple tt
    ensure_parent-Leads (some (c ∷ dir)) =
        >>=-Triple (call-Leads (mkdir (c ∷ dir))) (made_directory-Leads (c ∷ dir))

    remove_stale-Leads : (path : Bytes) (live : Bool) → Leads J (remove_stale os path live) J
    unfolding remove_stale
    remove_stale-Leads path true = throw-Leads _
    remove_stale-Leads path false = >>=-Triple (must-Leads (unlink path) _) λ _. ret-Triple tt

    probe-Leads : (path : Bytes) (a : Answer) → Leads J (probe os path a) J
    unfolding probe
    probe-Leads path (errs e) = ret-Triple false
    probe-Leads path (done fd) =
        >>=-Triple (call-Leads (connect_unix fd _))
          λ rc. >>=-Triple (call-Leads (close_fd fd)) λ _. ret-Triple _

    pub clear_path-Leads : (path : Bytes) (a : Answer) → Leads J (clear_path os path a) J
    unfolding clear_path path_has_live_listener
    clear_path-Leads path (errs e) = if-Triple (e == enoent) (ret-Triple tt) (throw-Leads _)
    clear_path-Leads path (done mode) =
        if-Triple (is_socket mode)
          (>>=-Triple (>>=-Triple (call-Leads (socket_unix false)) (probe-Leads path))
            (remove_stale-Leads path))
          (throw-Leads _)

    abbrev Answered : Call → ℕ → List Call → Call → Answer → ServerState Handle → Type 0
    Answered opening got calls c (done n) s = On (Just J opening got (c ∷ calls)) s
    Answered opening got calls c (errs e) s = Unit {0}

    closed_unless-Leads :
        (opening : Call) (got : ℕ) (calls : List Call) (fd : ℕ) (c : Call) (what : Bytes)
        (a : Answer)
        → Triple
            (Answered opening got calls c a)
            (closed_unless os fd what a)
            (λ _. On (Just J opening got (c ∷ calls)))
            (λ _. Unit {0})
    unfolding closed_unless
    closed_unless-Leads opening got calls fd c what (done n) = ret-Triple tt
    closed_unless-Leads opening got calls fd c what (errs e) =
        >>=-Triple {Q = λ _ _. Unit {0}} (call-Triple os (close_fd fd) (λ s a p. tt))
          λ _. throw-Triple _

    pub or_close-Leads :
        (opening : Call) (got : ℕ) (calls : List Call) (fd : ℕ) (c : Call) (what : Bytes)
        → Leads (Just J opening got calls) (or_close os fd c what) (Just J opening got (c ∷ calls))
    unfolding or_close
    or_close-Leads opening got calls fd c what =
        >>=-Triple {Q = Answered opening got calls c} (call-Triple os c goes_on)
          (closed_unless-Leads opening got calls fd c what)
      where
        goes_on :
            (s : ServerState Handle) (a : Answer)
            → On (Just J opening got calls) s
            → Answered opening got calls c a (record s { trace = (c, a) ∷ s.trace })
        goes_on s (done n) p = (grows s _ p.0, then_did c n p.1)
        goes_on s (errs e) p = tt

    pub only_v6-Leads :
        (opening : Call) (got : ℕ) (calls : List Call) (f : Family) (fd : ℕ)
        → Leads
            (Just J opening got calls)
            (only_v6 os f fd)
            (Just J opening got (v6_calls f fd ++ calls))
    only_v6-Leads opening got calls af_inet6 fd = or_close-Leads opening got calls fd (v6_only fd) _
    only_v6-Leads opening got calls af_inet fd = ret-Triple tt
    only_v6-Leads opening got calls af_unspec fd = ret-Triple tt
