-- ===== src/Server/Listen/Ran.antt =====
-- What the calls so far have brought about, told from the trace alone.
use nshgeoip.Prelude.{Bytes, ℕ, true, Option, some, List, [], ◌∷◌, ◌++◌}
use nshgeoip.Ip.{c_str, Family, af_inet6}
use nshgeoip.Server.Os.{
  Trace, TcpAddress, Call, block_signals, signalfd, socket_unix, socket_tcp, bind_unix, bind_tcp,
  reuse_addr, v6_only, listen, chmod, Answer, done,
}

-- The call `opening` gave `fd`, and then the calls of the list, the last one first, all succeeded,
-- with no other call in between or since.
pub data Ran (opening : Call) (fd : ℕ) : List Call → Trace → Type 0 where
  gave : (t : Trace) → Ran opening fd [] ((opening, done fd) ∷ t)
  then_did :
      {calls : List Call} {t : Trace} (c : Call) (n : ℕ)
      → Ran opening fd calls t
      → Ran opening fd (c ∷ calls) ((c, done n) ∷ t)

-- The same, with any calls since.
pub data Happened (opening : Call) (fd : ℕ) (calls : List Call) : Trace → Type 0 where
  just_now : {t : Trace} → Ran opening fd calls t → Happened opening fd calls t
  earlier :
      {t : Trace} (x : Call × Answer)
      → Happened opening fd calls t
      → Happened opening fd calls (x ∷ t)

-- The descriptor reads SIGTERM (15), SIGINT (2) and SIGHUP (1), which are blocked otherwise.
pub data ReadsSignals (t : Trace) : Option ℕ → Type 0 where
  reads :
      {fd n : ℕ}
      → Happened (block_signals (15 ∷ 2 ∷ 1 ∷ [])) n [] t
      → Happened (signalfd (15 ∷ 2 ∷ 1 ∷ [])) fd [] t
      → ReadsSignals t (some fd)

-- The descriptor is a socket that was bound to the path, got its mode and listens, in this order.
pub data ListensAt (path : Bytes) (mode : ℕ) (t : Trace) : Option ℕ → Type 0 where
  listens :
      {fd : ℕ}
      → Happened
          (socket_unix true)
          fd
          (listen fd ∷ chmod path mode ∷ bind_unix fd (c_str path) ∷ [])
          t
      → ListensAt path mode t (some fd)

abbrev pub v6_calls : Family → ℕ → List Call
v6_calls af_inet6 fd = v6_only fd ∷ []
v6_calls _ fd = []

-- The calls behind socket(), the last one first.
abbrev pub tcp_calls : Family → ℕ → TcpAddress → List Call
tcp_calls family fd addr = listen fd ∷ bind_tcp fd addr ∷ (v6_calls family fd ++ reuse_addr fd ∷ [])

-- One descriptor for each address, in the same order.
pub data Listeners (t : Trace) : List TcpAddress → List ℕ → Type 0 where
  no_more : Listeners t [] []
  one_more :
      {addrs : List TcpAddress} {fds : List ℕ} (addr : TcpAddress) (fd : ℕ)
      → Happened (socket_tcp addr.family) fd (tcp_calls addr.family fd addr) t
      → Listeners t addrs fds
      → Listeners t (addr ∷ addrs) (fd ∷ fds)

pub ReadsSignals-grows :
    {t : Trace} {g : Option ℕ} (x : Call × Answer) → ReadsSignals t g → ReadsSignals (x ∷ t) g
ReadsSignals-grows x (reads b s) = reads (earlier x b) (earlier x s)

pub ListensAt-grows :
    {path : Bytes} {mode : ℕ} {t : Trace} {l : Option ℕ} (x : Call × Answer)
    → ListensAt path mode t l
    → ListensAt path mode (x ∷ t) l
ListensAt-grows x (listens h) = listens (earlier x h)

pub Listeners-grows :
    {t : Trace} {addrs : List TcpAddress} {fds : List ℕ} (x : Call × Answer)
    → Listeners t addrs fds
    → Listeners (x ∷ t) addrs fds
Listeners-grows x no_more = no_more
Listeners-grows x (one_more addr fd h ls) = one_more addr fd (earlier x h) (Listeners-grows x ls)

pub Listeners-append :
    {t : Trace} {addrs : List TcpAddress} {fds : List ℕ} (addr : TcpAddress) (fd : ℕ)
    → Listeners t addrs fds
    → Happened (socket_tcp addr.family) fd (tcp_calls addr.family fd addr) t
    → Listeners t (addrs ++ addr ∷ []) (fds ++ fd ∷ [])
Listeners-append addr fd no_more h = one_more addr fd h no_more
Listeners-append addr fd (one_more other n k ls) h =
    one_more other n k (Listeners-append addr fd ls h)
