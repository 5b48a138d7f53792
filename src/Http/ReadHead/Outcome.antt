-- ===== src/Http/ReadHead/Outcome.antt =====
-- What the results of the receive loop say of the bytes that were received.
use mathlib.Core.Option.{some-injective}
use nshgeoip.Prelude.{
  ltb, ltb→lt, Bool-cases, length, length-append, All, Bytes, contains, ℕ, ◌+◌, ◌≤◌, ◌<◌, ◌≡◌, refl,
  subst, inl, inr, true, false, Option, some, List, [], ◌∷◌, ◌++◌, arith,
}
use nshgeoip.Http.ReadHead.{
  head_end, read_from, read_http_head, ReadResult, ok, too_large, connection_closed, timeout,
  io_error, Event, expires, interrupted, fails, closes, receives,
}

-- What each result promises of the text in `out`. `chunk` bounds one recv().
abbrev pub Promises : ℕ → ℕ → ReadResult → Bytes → Type 0
Promises max_bytes chunk ok out = (length out ≤ max_bytes) × (contains head_end out ≡ true)
Promises max_bytes chunk too_large out = (max_bytes < length out) × (length out ≤ max_bytes + chunk)
Promises max_bytes chunk _ out = (length out ≤ max_bytes) × (contains head_end out ≡ false)

-- recv() is given a buffer of `chunk` bytes.
abbrev pub FitsChunk : ℕ → Event → Type 0
FitsChunk chunk (receives buf) = length buf ≤ chunk
FitsChunk chunk _ = Unit

settled :
    (m k : ℕ) (r r' : ReadResult) (out out' : Bytes)
    → ◌≡◌ {A = Option (ReadResult × Bytes)} (some (r, out)) (some (r', out'))
    → Promises m k r out
    → Promises m k r' out'
settled m k r r' out out' e =
    subst (λ (t : ReadResult × Bytes). Promises m k t.0 t.1) (some-injective _ _ e)

module _ (max_bytes chunk : ℕ) where
  read_from-Promises :
      (es : List Event) (out : Bytes) (r : ReadResult) (out' : Bytes)
      → All (FitsChunk chunk) es
      → length out ≤ max_bytes
      → contains head_end out ≡ false
      → read_from max_bytes out es ≡ some (r, out')
      → Promises max_bytes chunk r out'
  unfolding read_from
  read_from-Promises [] out r out' f l c e = cc
  read_from-Promises (expires ∷ es) out r out' f l c e = ground arith
  read_from-Promises (interrupted ∷ es) out r out' f l c e =
      read_from-Promises es out r out' f.1 l c e
  read_from-Promises (fails ∷ es) out r out' f l c e = ground arith
  read_from-Promises (closes ∷ es) out r out' f l c e = ground arith
  read_from-Promises (receives buf ∷ es) out r out' f l c e =
      let all = out ++ buf in
      let len = length-append out buf in
      elim (Bool-cases (ltb max_bytes (length all))) [
        | inl big ↦
            settled max_bytes chunk too_large r all out' (rw big at e)
              (ltb→lt _ _ big, omega (arith, len, f.0))
        | inr fits ↦
            let small : length all ≤ max_bytes = ground (arith, fits) in
            elim (Bool-cases (contains head_end all)) [
              | inl full ↦
                  settled max_bytes chunk ok r all out' (rw (fits, full) at e) (small, full)
              | inr part ↦ read_from-Promises es all r out' f.1 small part (rw (fits, part) at e)
            ]
      ]

read_from_returns :
    (max_bytes : ℕ) (es rest : List Event) (out : Bytes)
    → (t : ReadResult × Bytes) × (read_from max_bytes out (es ++ expires ∷ rest) ≡ some t)
unfolding read_from
read_from_returns max_bytes [] rest out = ((timeout, out), refl)
read_from_returns max_bytes (expires ∷ es) rest out = ((timeout, out), refl)
read_from_returns max_bytes (interrupted ∷ es) rest out = read_from_returns max_bytes es rest out
read_from_returns max_bytes (fails ∷ es) rest out = ((io_error, out), refl)
read_from_returns max_bytes (closes ∷ es) rest out = ((connection_closed, out), refl)
read_from_returns max_bytes (receives buf ∷ es) rest out =
    let later = read_from_returns max_bytes es rest (out ++ buf) in
    elim (Bool-cases (ltb max_bytes (length (out ++ buf)))) [
      | inl big ↦ ((too_large, out ++ buf), rw big)
      | inr fits ↦ elim (Bool-cases (contains head_end (out ++ buf))) [
        | inl full ↦ ((ok, out ++ buf), rw (fits, full))
        | inr part ↦ (later.0, rw (fits, part) later.1)
      ]
    ]

-- Whatever the peer sends, once the deadline has passed the loop has returned. With `ok` the text
-- is within the limit and holds the end of the headers; with `too_large` it is above the limit by
-- one receive buffer at most; with any other result it is within the limit and holds no end of
-- headers.
pub read_http_head_total :
    (max_bytes chunk : ℕ) (es rest : List Event)
    → All (FitsChunk chunk) (es ++ expires ∷ rest)
    → (t : ReadResult × Bytes) × (read_http_head max_bytes (es ++ expires ∷ rest) ≡ some t)
      × Promises max_bytes chunk t.0 t.1
unfolding read_http_head
read_http_head_total max_bytes chunk es rest f =
    let (t, e) = read_from_returns max_bytes es rest [] in
    (
      t,
      e,
      read_from-Promises max_bytes chunk (es ++ expires ∷ rest) [] t.0 t.1 f (omega arith)
          (unfold contains in refl) e,
    )
