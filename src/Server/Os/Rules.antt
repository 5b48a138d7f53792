-- ===== src/Server/Os/Rules.antt =====
-- Rules for the functions over the operating system: what holds before, after, and after an error.
use nshgeoip.Prelude.{if◌then◌else◌, Bytes, ℕ, Bool, true, false, ◌∷◌}
use nshgeoip.Server.Os.{
  M, bind_result, ◌>>=◌, ret, throw, modify, call, require, must, Call, Answer, done, errs, Os,
  ServerState, Result, returns, throws,
}

module _ {S : Type 0} where
  abbrev pub Post : {A : Type 0} → (A → S → Type 0) → (S → Type 0) → Result A × S → Type 0
  Post Q E (returns a, s) = Q a s
  Post Q E (throws err, s) = E s

  pub record Triple {A : Type 0} (P : S → Type 0) (m : M S A) (Q : A → S → Type 0) (E : S → Type 0)
      : Type 0 where
    pub ends : (s : S) → P s → Post Q E (m s)

  bind_result-Post :
      {A B : Type 0} {Q : A → S → Type 0} {R : B → S → Type 0} {E : S → Type 0} (f : A → M S B)
      → ((a : A) → Triple (Q a) (f a) R E)
      → (r : Result A × S) → Post Q E r
      → Post R E (bind_result r f)
  bind_result-Post f u (returns a, s) q = (u a).ends s q
  bind_result-Post f u (throws err, s) q = q

  pub >>=-Triple :
      {A B : Type 0} {P : S → Type 0} {Q : A → S → Type 0} {R : B → S → Type 0} {E : S → Type 0}
      {m : M S A} {f : A → M S B}
      → Triple P m Q E
      → ((a : A) → Triple (Q a) (f a) R E)
      → Triple P (m >>= f) R E
  unfolding ◌>>=◌
  >>=-Triple {Q} {R} {E} {m} {f} t u = record {
    ends = λ s p. bind_result-Post {Q = Q} {R = R} {E = E} f u (m s) (t.ends s p);
  }

  pub ret-Triple :
      {A : Type 0} {P : S → Type 0} {E : S → Type 0} (a : A) → Triple P (ret a) (λ _. P) E
  unfolding ret
  ret-Triple a = record { ends = λ s p. p }

  pub throw-Triple :
      {A : Type 0} {P : S → Type 0} {Q : A → S → Type 0} (err : Bytes) → Triple P (throw err) Q P
  unfolding throw
  throw-Triple err = record { ends = λ s p. p }

  pub modify-Triple :
      {P Q : S → Type 0} {E : S → Type 0} (f : S → S)
      → ((s : S) → P s → Q (f s))
      → Triple P (modify f) (λ _. Q) E
  unfolding modify
  modify-Triple f h = record { ends = h }

  pub if-Triple :
      {A : Type 0} {P : S → Type 0} {Q : A → S → Type 0} {E : S → Type 0} (b : Bool) {m n : M S A}
      → Triple P m Q E
      → Triple P n Q E
      → Triple P (if b then m else n) Q E
  if-Triple true t u = t
  if-Triple false t u = u

  pub weaken-Triple :
      {A : Type 0} {P : S → Type 0} {Q R : A → S → Type 0} {E : S → Type 0} {m : M S A}
      → Triple P m Q E
      → ((a : A) (s : S) → Q a s → R a s)
      → Triple P m R E
  weaken-Triple {A} {Q} {R} {E} {m} t h = record { ends = λ s p. go (m s) (t.ends s p) }
    where
      go : (r : Result A × S) → Post Q E r → Post R E r
      go (returns a, s) q = h a s q
      go (throws err, s) q = q

module _ {Handle : Type 0} (os : Os Handle) where
  pub call-Triple :
      {P : ServerState Handle → Type 0} {Q : Answer → ServerState Handle → Type 0}
      {E : ServerState Handle → Type 0} (c : Call)
      → ((s : ServerState Handle) (a : Answer) → P s → Q a (record s { trace = (c, a) ∷ s.trace }))
      → Triple P (call os c) Q E
  unfolding call
  call-Triple c h = record { ends = λ s p. h s (os.answer s.trace c) p }

  pub must-Triple :
      {P : ServerState Handle → Type 0} {Q : ℕ → ServerState Handle → Type 0}
      {E : ServerState Handle → Type 0} (c : Call) (message : Bytes → Bytes)
      → ((s : ServerState Handle) (n : ℕ) → P s → Q n (record s { trace = (c, done n) ∷ s.trace }))
      → ((s : ServerState Handle) (e : ℕ) → P s → E (record s { trace = (c, errs e) ∷ s.trace }))
      → Triple P (must os c message) Q E
  unfolding must call ◌>>=◌ ret throw
  must-Triple {P} {Q} {E} c message h k = record { ends = λ s p. go s (os.answer s.trace c) p }
    where
      go :
          (s : ServerState Handle) (a : Answer)
          → P s
          → Post Q E (require os message a (record s { trace = (c, a) ∷ s.trace }))
      go s (done n) p = h s n p
      go s (errs e) p = k s e p
