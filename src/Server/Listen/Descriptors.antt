-- ===== src/Server/Listen/Descriptors.antt =====
-- No function that sets the listeners up loses a descriptor.
use nshgeoip.Prelude.{
  leb, ◌==◌, length, Bytes, is_empty, ℕ, ◌≡◌, refl, ap, Bool, true, false, Option, none, some, [],
  ◌∷◌, arith,
}
use nshgeoip.Ip.{InetPton, Family, af_unspec, af_inet, af_inet6, ParsedAddr}
use nshgeoip.Config.{Config}
use nshgeoip.Pool.Descriptors.{count, count-append}
use nshgeoip.Server.Os.{
  eexist, enoent, is_socket, is_directory, is_done, TcpAddress, Call, block_signals, signalfd,
  socket_unix, socket_tcp, connect_unix, bind_unix, bind_tcp, reuse_addr, v6_only, listen, mkdir,
  lstat, access_write, unlink, chmod, Answer, done, errs, Os,
}
use nshgeoip.Server.Os.Rules.{>>=-Triple, ret-Triple, modify-Triple, if-Triple, call-Triple, Triple}
use nshgeoip.Server.Os.Held.{
  opens, closes, opened_fds, optional, Frame, anything, no_listener, neither, Held, Keeps,
  quiet-Triple, quiet_must, opening-Triple, closing-Triple, throws-Triple,
}
use nshgeoip.Server.Listen.{
  sun_path, sun_path_size, setup_signals, probe, path_has_live_listener, check_directory,
  made_directory, ensure_parent, ensure_socket_directory, remove_stale, clear_path, bind_socket,
  bind_checked, setup_socket, closed_unless, or_close, only_v6, bind_one_tcp, bind_family,
  bind_address, setup_tcp_listeners,
}

module _ {Handle : Type 0} (os : Os Handle) (R : Frame) where
  probe-Keeps :
      (path : Bytes) (a : Answer)
      → Triple
          (Held R (opens (socket_unix false) a))
          (probe os path a)
          (λ _. Held R [])
          (Held anything [])
  unfolding probe
  probe-Keeps path (errs e) = ret-Triple false
  probe-Keeps path (done fd) =
      >>=-Triple (quiet-Triple os R (connect_unix fd (sun_path path)) (fd ∷ []) (λ a. refl) refl)
        λ rc. >>=-Triple (closing-Triple os R fd) λ _. ret-Triple (is_done rc)

  path_has_live_listener-Keeps : (path : Bytes) → Keeps os R (path_has_live_listener os path)
  unfolding path_has_live_listener
  path_has_live_listener-Keeps path =
      >>=-Triple {Q = λ a. Held R (opens (socket_unix false) a)}
        (call-Triple os (socket_unix false) (λ s a p. (
          p.0,
          λ x.
              omega
                (arith, p.1 x, count-append x (opens (socket_unix false) a) (opened_fds s.trace)),
        )))
        (λ a. probe-Keeps path a)

  check_directory-Keeps : (dir : Bytes) (mode : ℕ) → Keeps os R (check_directory os dir mode)
  unfolding check_directory
  check_directory-Keeps dir mode =
      if-Triple (is_directory mode)
        (>>=-Triple (quiet_must os R (access_write dir) _ (λ a. refl) refl) λ _. ret-Triple tt)
        (throws-Triple os R _)

  made_directory-Keeps : (dir : Bytes) (a : Answer) → Keeps os R (made_directory os dir a)
  unfolding made_directory
  made_directory-Keeps dir (done n) = ret-Triple tt
  made_directory-Keeps dir (errs e) =
      if-Triple (e == eexist)
        (>>=-Triple (quiet_must os R (lstat dir) _ (λ a. refl) refl) (check_directory-Keeps dir))
        (throws-Triple os R _)

  ensure_parent-Keeps : (o : Option Bytes) → Keeps os R (ensure_parent os o)
  unfolding ensure_parent
  ensure_parent-Keeps none = ret-Triple tt
  ensure_parent-Keeps (some []) = ret-Triple tt
  ensure_parent-Keeps (some (c ∷ dir)) =
      >>=-Triple (quiet-Triple os R (mkdir (c ∷ dir)) [] (λ a. refl) refl)
        (made_directory-Keeps (c ∷ dir))

  remove_stale-Keeps : (path : Bytes) (live : Bool) → Keeps os R (remove_stale os path live)
  unfolding remove_stale
  remove_stale-Keeps path true = throws-Triple os R _
  remove_stale-Keeps path false =
      >>=-Triple (quiet_must os R (unlink path) _ (λ a. refl) refl) λ _. ret-Triple tt

  clear_path-Keeps : (path : Bytes) (a : Answer) → Keeps os R (clear_path os path a)
  unfolding clear_path
  clear_path-Keeps path (errs e) = if-Triple (e == enoent) (ret-Triple tt) (throws-Triple os R _)
  clear_path-Keeps path (done mode) =
      if-Triple (is_socket mode)
        (>>=-Triple (path_has_live_listener-Keeps path) (remove_stale-Keeps path))
        (throws-Triple os R _)

  bind_socket-Keeps : (path : Bytes) (mode fd : ℕ) → Keeps os R (bind_socket os path mode fd)
  unfolding bind_socket
  bind_socket-Keeps path mode fd =
      >>=-Triple (quiet_must os R (bind_unix fd (sun_path path)) _ (λ a. refl) refl) λ _.
        >>=-Triple (modify-Triple _ (λ s p. p)) λ _.
          >>=-Triple (quiet_must os R (chmod path mode) _ (λ a. refl) refl)
            λ _. >>=-Triple (quiet_must os R (listen fd) _ (λ a. refl) refl) λ _. ret-Triple tt

  bind_checked-Keeps : (cfg : Config) (fd : ℕ) → Keeps os R (bind_checked os cfg fd)
  unfolding bind_checked
  bind_checked-Keeps cfg fd =
      if-Triple (leb sun_path_size (length cfg.socket_path)) (throws-Triple os R _)
        (bind_socket-Keeps cfg.socket_path cfg.socket_mode fd)

  closed_unless-Held :
      (fd : ℕ) (what : Bytes) (a : Answer)
      → Triple
          (Held R (fd ∷ []))
          (closed_unless os fd what a)
          (λ _. Held R (fd ∷ []))
          (Held anything [])
  unfolding closed_unless
  closed_unless-Held fd what (done n) = ret-Triple tt
  closed_unless-Held fd what (errs e) =
      >>=-Triple (closing-Triple os R fd) λ _. throws-Triple os R _

  or_close-Held :
      (fd : ℕ) (c : Call) (what : Bytes)
      → ((a : Answer) → opens c a ≡ [])
      → closes c ≡ []
      → Triple (Held R (fd ∷ [])) (or_close os fd c what) (λ _. Held R (fd ∷ [])) (Held anything [])
  unfolding or_close
  or_close-Held fd c what h k =
      >>=-Triple (quiet-Triple os R c (fd ∷ []) h k) (closed_unless-Held fd what)

  only_v6-Held :
      (f : Family) (fd : ℕ)
      → Triple (Held R (fd ∷ [])) (only_v6 os f fd) (λ _. Held R (fd ∷ [])) (Held anything [])
  only_v6-Held af_inet6 fd = or_close-Held fd (v6_only fd) _ (λ a. refl) refl
  only_v6-Held af_inet fd = ret-Triple tt
  only_v6-Held af_unspec fd = ret-Triple tt

  bind_one_tcp-Keeps : (addr : TcpAddress) → Keeps os R (bind_one_tcp os addr)
  unfolding bind_one_tcp
  bind_one_tcp-Keeps addr =
      >>=-Triple (opening-Triple os R (socket_tcp addr.family) _ (λ fd. refl) (λ e. refl) refl)
        λ fd. >>=-Triple (or_close-Held fd (reuse_addr fd) _ (λ a. refl) refl) λ _.
          >>=-Triple (only_v6-Held addr.family fd) λ _.
            >>=-Triple (or_close-Held fd (bind_tcp fd addr) _ (λ a. refl) refl) λ _.
              >>=-Triple (or_close-Held fd (listen fd) _ (λ a. refl) refl) λ _.
                modify-Triple _ (λ s p.
                  (p.0, λ x. omega (arith, p.1 x, count-append x s.tcp_listen_fds (fd ∷ []))))

  bind_family-Keeps :
      (cfg : Config) (f : Family) (bytes : Bytes) → Keeps os R (bind_family os cfg f bytes)
  unfolding bind_family
  bind_family-Keeps cfg af_inet bytes = bind_one_tcp-Keeps _
  bind_family-Keeps cfg af_inet6 bytes = bind_one_tcp-Keeps _
  bind_family-Keeps cfg af_unspec bytes = throws-Triple os R _

  bind_address-Keeps : (cfg : Config) (o : Option ParsedAddr) → Keeps os R (bind_address os cfg o)
  unfolding bind_address
  bind_address-Keeps cfg none = throws-Triple os R _
  bind_address-Keeps cfg (some addr) = bind_family-Keeps cfg addr.family addr.address

  pub setup_tcp_listeners-Keeps :
      (inet_pton : InetPton) (cfg : Config) → Keeps os R (setup_tcp_listeners os inet_pton cfg)
  unfolding setup_tcp_listeners
  setup_tcp_listeners-Keeps inet_pton cfg = if-Triple (cfg.tcp_port == 0) (ret-Triple tt) (
      if-Triple (is_empty cfg.tcp_address)
        (>>=-Triple (bind_one_tcp-Keeps _) λ _. bind_one_tcp-Keeps _) (bind_address-Keeps cfg _))

module _ {Handle : Type 0} (os : Os Handle) where
  pub setup_socket-Held :
      (cfg : Config)
      → Triple
          (Held no_listener [])
          (setup_socket os cfg)
          (λ _. Held anything [])
          (Held anything [])
  unfolding setup_socket ensure_socket_directory
  setup_socket-Held cfg = >>=-Triple (ensure_parent-Keeps os no_listener _) λ _.
      >>=-Triple (quiet-Triple os no_listener (lstat cfg.socket_path) [] (λ a. refl) refl) λ there.
        >>=-Triple (clear_path-Keeps os no_listener cfg.socket_path there) λ _.
          >>=-Triple
            (opening-Triple os no_listener (socket_unix true) _ (λ fd. refl) (λ e. refl) refl)
            λ fd.
              >>=-Triple {Q = λ _. Held anything []}
                (modify-Triple _
                  (λ s p. (tt, λ x. omega (arith, p.1 x, ap (λ g. count x (optional g)) p.0))))
                λ _. bind_checked-Keeps os anything cfg fd

  pub setup_signals-Held :
      Triple (Held neither []) (setup_signals os) (λ _. Held no_listener []) (Held anything [])
  unfolding setup_signals
  setup_signals-Held = >>=-Triple (quiet_must os neither (block_signals _) _ (λ a. refl) refl) λ _.
      >>=-Triple (opening-Triple os neither (signalfd _) _ (λ fd. refl) (λ e. refl) refl) λ fd.
        modify-Triple _
          (λ s p. (p.0.0, λ x. omega (arith, p.1 x, ap (λ g. count x (optional g)) p.0.1)))
