-- ===== src/Server/Write.antt =====
-- src/server.cpp: `write_all`. What each send() returns is an argument: a list of its results.
use nshgeoip.Prelude.{
  length, Bytes, ℕ, zero, suc, ◌≤◌, ◌≡◌, refl, sym, ap, ◌∙◌, ◌≢◌, Bool, true, false, Option, none,
  some, List, [], ◌∷◌, ◌++◌, append_assoc, arith,
}

-- The count of bytes that it took, EINTR, or another error.
pub data SendResult : Type 0 where
  takes : ℕ → SendResult
  interrupts : SendResult
  fails : SendResult

-- `take n` and `drop n` of the library, on the native numbers.
abbrev pub take : ℕ → Bytes → Bytes
take zero s = []
take (suc n) [] = []
take (suc n) (c ∷ s) = c ∷ take n s

abbrev pub drop : ℕ → Bytes → Bytes
drop zero s = s
drop (suc n) [] = []
drop (suc n) (c ∷ s) = drop n s

-- What the peer was sent, and what `write_all` returned; none while it still runs.
pub record Written : Type 0 where
  pub sent : Bytes
  pub returned : Option Bool

abbrev pub sent_before : Bytes → Written → Written
sent_before s w = record { sent = s ++ w.sent; returned = w.returned }

-- `data` is what is left from `data.data() + sent` on. send() takes no more bytes than it is
-- given.
unfoldable pub write_all : List SendResult → Bytes → Written
write_all results [] = record { sent = []; returned = some true }
write_all [] (c ∷ bytes) = record { sent = []; returned = none }
write_all (interrupts ∷ results) (c ∷ bytes) = write_all results (c ∷ bytes)
write_all (fails ∷ results) (c ∷ bytes) = record { sent = []; returned = some false }
write_all (takes n ∷ results) (c ∷ bytes) =
    sent_before (take n (c ∷ bytes)) (write_all results (drop n (c ∷ bytes)))

-- How many calls made headway before the first error.
abbrev pub headway : List SendResult → ℕ
headway [] = 0
headway (interrupts ∷ results) = headway results
headway (fails ∷ results) = 0
headway (takes zero ∷ results) = headway results
headway (takes (suc n) ∷ results) = suc (headway results)

pub record IsWritten (results : List SendResult) (bytes : Bytes) (w : Written) : Type 0 where
  -- The peer gets a part of the text from its start, each byte once and in order.
  pub prefix : (rest : Bytes) × (bytes ≡ w.sent ++ rest)
  pub complete : w.returned ≡ some true → w.sent ≡ bytes
  pub incomplete : w.returned ≡ some false → w.sent ≢ bytes
  -- As many calls that make headway as there are bytes are enough.
  pub progress : length bytes ≤ headway results → w.returned ≡ some true

take-drop : (n : ℕ) (s : Bytes) → take n s ++ drop n s ≡ s
take-drop zero s = refl
take-drop (suc n) [] = refl
take-drop (suc n) (c ∷ s) = ap (◌∷◌ c) (take-drop n s)

length-drop : (n : ℕ) (s : Bytes) → length (drop n s) ≤ length s
length-drop zero s = omega arith
length-drop (suc n) [] = omega arith
length-drop (suc n) (c ∷ s) = omega (arith, length-drop n s)

append_cancel : (a b c : Bytes) → a ++ b ≡ a ++ c → b ≡ c
append_cancel [] b c e = e
append_cancel (x ∷ a) b c e = append_cancel a b c cc

takes-headway :
    (n : ℕ) (results : List SendResult) (c : ℕ) (bytes : Bytes)
    → length (c ∷ bytes) ≤ headway (takes n ∷ results)
    → length (drop n (c ∷ bytes)) ≤ headway results
takes-headway zero results c bytes h = h
takes-headway (suc n) results c bytes h = omega (arith, length-drop n bytes)

takes-IsWritten :
    (n : ℕ) (results : List SendResult) (c : ℕ) (bytes : Bytes) (w : Written)
    → IsWritten results (drop n (c ∷ bytes)) w
    → IsWritten (takes n ∷ results) (c ∷ bytes) (sent_before (take n (c ∷ bytes)) w)
takes-IsWritten n results c bytes w v =
    let split = take-drop n (c ∷ bytes) in
    record {
      prefix = (
        v.prefix.0,
        sym split
            ∙ ap (λ t. take n (c ∷ bytes) ++ t) v.prefix.1
            ∙ sym (append_assoc (take n (c ∷ bytes)) w.sent v.prefix.0),
      );
      complete = λ e. ap (λ t. take n (c ∷ bytes) ++ t) (v.complete e) ∙ split;
      incomplete = λ e f. v.incomplete e (append_cancel (take n (c ∷ bytes)) _ _ (f ∙ sym split));
      progress = λ h. v.progress (takes-headway n results c bytes h);
    }

-- Whatever send() returns: the peer gets the text from its start, each byte once and in order; all
-- of it if the result is true, not all of it if it is false; and the result is true once as many
-- calls as there are bytes have made headway without an error.
pub write_all-IsWritten :
    (results : List SendResult) (bytes : Bytes) → IsWritten results bytes (write_all results bytes)
unfolding write_all
write_all-IsWritten results [] = record {
  prefix = ([], refl);
  complete = λ e. refl;
  incomplete = λ e. cc;
  progress = λ h. refl;
}
write_all-IsWritten [] (c ∷ bytes) = record {
  prefix = (c ∷ bytes, refl);
  complete = λ e. cc;
  incomplete = λ e f. cc;
  progress = λ h. absurd (omega arith);
}
write_all-IsWritten (interrupts ∷ results) (c ∷ bytes) =
    let v = write_all-IsWritten results (c ∷ bytes) in
    record {
      prefix = v.prefix;
      complete = v.complete;
      incomplete = v.incomplete;
      progress = v.progress;
    }
write_all-IsWritten (fails ∷ results) (c ∷ bytes) = record {
  prefix = (c ∷ bytes, refl);
  complete = λ e. cc;
  incomplete = λ e f. cc;
  progress = λ h. absurd (omega arith);
}
write_all-IsWritten (takes n ∷ results) (c ∷ bytes) =
    takes-IsWritten n results c bytes _ (write_all-IsWritten results (drop n (c ∷ bytes)))
