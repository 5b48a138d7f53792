-- ===== src/Server/MetricsFile.antt =====
-- src/server.cpp: `Server::write_metrics_file`. What the file operations meet is an argument.
use nshgeoip.Prelude.{
  if◌then◌else◌, Bool-cases, length, All, Bytes, ℕ, zero, suc, ◌≤◌, ◌≡◌, refl, ap, ◌⊎◌, inl, inr,
  Bool, true, false, not, ◌&&◌, Option, none, some, List, [], ◌∷◌, ◌++◌, arith,
}
use nshgeoip.Server.Write.{take}
use nshgeoip.External.{External}
use nshgeoip.Metrics.{Metrics}
use nshgeoip.Metrics.Render.{render_prometheus_metrics}
use nshgeoip.Server.Connection.{collect_db_infos, metrics_response, Context}

-- Whether the stream opens; how many bytes of the text are in the file behind `out << text`, and
-- whether the stream is good then; how many are there when the destructor has flushed the rest; and
-- whether rename() succeeds.
pub record FileIo : Type 0 where
  pub opens : Bool
  pub written : ℕ
  pub is_good : Bool
  pub flushed : ℕ
  pub renames : Bool

-- The contents of the temporary file and of `metrics_file`.
pub record Files : Type 0 where
  pub tmp : Option Bytes
  pub target : Option Bytes

-- The warning that is logged, if any.
pub data WriteEnd : Type 0 where
  replaced cannot_open cannot_write cannot_rename : WriteEnd

abbrev with_tmp : Bytes → Files → Files
with_tmp contents files = record files { tmp = some contents }

unfoldable pub rename_file : Bool → Files → List Files
rename_file true files = record { tmp = none; target = files.tmp } ∷ []
rename_file false files = []

-- How the function ends, and the files behind each of its calls, in order.
unfoldable pub write_file : Bytes → FileIo → Files → WriteEnd × List Files
unfolding rename_file
write_file text io files =
    if not io.opens
    then (cannot_open, [])
    else let streamed_to =
        with_tmp [] files
        ∷ with_tmp (take io.written text) files
        ∷ with_tmp (take io.flushed text) files
        ∷ [] in
      if not io.is_good then (cannot_write, streamed_to) else (
        if io.renames then replaced else cannot_rename,
        streamed_to ++ rename_file io.renames (with_tmp (take io.flushed text) files),
      )

module _ (ext : External) where
  unfoldable pub write_metrics_file : Metrics → Context ext → FileIo → Files → WriteEnd × List Files
  unfolding write_file
  write_metrics_file m ctx io files =
      write_file
        (render_prometheus_metrics ext m (collect_db_infos ext ctx.databases ctx.now) ctx.version
          ctx.mmdb_lib_version ctx.uptime)
        io files

-- What a reader of `metrics_file` may see.
abbrev pub SeesWhole : Bytes → Files → Files → Type 0
SeesWhole text files f = (f.target ≡ files.target) ⊎ (f.target ≡ some text)

abbrev pub last_of : Files → List Files → Files
last_of files [] = files
last_of files (f ∷ fs) = last_of f fs

-- Nothing fails.
abbrev pub succeeds : FileIo → Bool
succeeds io = io.opens && (io.is_good && io.renames)

take-all : (n : ℕ) (s : Bytes) → length s ≤ n → take n s ≡ s
take-all zero [] h = refl
take-all zero (c ∷ s) h = absurd (omega (arith, h))
take-all (suc n) [] h = refl
take-all (suc n) (c ∷ s) h = ap (λ t. c ∷ t) (take-all n s (omega (arith, h)))

write_file-SeesWhole :
    (text : Bytes) (io : FileIo) (files : Files)
    → (io.is_good ≡ true → length text ≤ io.flushed)
    → All (SeesWhole text files) (write_file text io files).1
      × ((last_of files (write_file text io files).1).target
          ≡ (if succeeds io then some text else files.target))
unfolding write_file rename_file
write_file-SeesWhole text io files h = elim (Bool-cases io.opens) [
  | inr e ↦ rw e (tt, refl)
  | inl e ↦ rw e (elim (Bool-cases io.is_good) [
    | inr g ↦ rw g ((inl refl, (inl refl, (inl refl, tt))), refl)
    | inl g ↦
        let all = ap some (take-all io.flushed text (h g)) in
        rw g (elim (Bool-cases io.renames) [
          | inl r ↦ rw r ((inl refl, (inl refl, (inl refl, (inr all, tt)))), all)
          | inr r ↦ rw r ((inl refl, (inl refl, (inl refl, tt))), refl)
        ])
  ])
]

module _ (ext : External) where
  -- If closing a stream that is good writes out all of the text: at every moment `metrics_file` has its
  -- old content or all of the body that GET /metrics would get, never a part of it. At the end it has
  -- that body exactly if the temporary file opens, the text is written and rename() succeeds, whatever
  -- a temporary file held before; otherwise it has the old content.
  pub write_metrics_file-SeesWhole :
      (m : Metrics) (ctx : Context ext) (io : FileIo) (files : Files)
      → (io.is_good ≡ true → length (metrics_response ext m ctx).body ≤ io.flushed)
      → let moments = (write_metrics_file ext m ctx io files).1 in
        let body = (metrics_response ext m ctx).body in
        All (SeesWhole body files) moments
        × ((last_of files moments).target ≡ (if succeeds io then some body else files.target))
  unfolding write_metrics_file metrics_response
  write_metrics_file-SeesWhole m ctx io files h = write_file-SeesWhole _ io files h
