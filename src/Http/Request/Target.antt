-- ===== src/Http/Request/Target.antt =====
-- The parser on an encoded path and query.
use nshgeoip.Prelude.{
  length, length-append, All, All-append, All-mono, Bytes, is_empty, Without, split_first-Without,
  split_first-none, split_first, ℕ, zero, suc, ◌≤◌, ◌≡◌, refl, sym, ap, ◌∙◌, ◌≢◌, false, Option,
  some, List, [], ◌∷◌, ◌++◌, append-nil, arith,
}
use nshgeoip.Http.Percent.{percent_decode}
use nshgeoip.Http.Percent.RoundTrip.{
  IsByte, percent_encode, percent_decode-percent_encode, IsEncoded, percent_encode-IsEncoded,
}
use nshgeoip.Http.Request.{
  split_pair, both, push, decode_pair, parse_query, split_target, read_parts,
}
use nshgeoip.Http.Request.Render.{render_pair, render_pairs, render_query, IsPair}

-- Encoded text keeps clear of every separator.
pub encode-Without :
    (c : ℕ) (s : Bytes)
    → ((x : ℕ) → IsEncoded x → x ≢ c)
    → All IsByte s
    → Without c (percent_encode s)
encode-Without c s f h = All-mono IsEncoded (λ x. x ≢ c) f _ (percent_encode-IsEncoded s h)

pub is_empty-append : (a : Bytes) (c : ℕ) (b : Bytes) → is_empty (a ++ c ∷ b) ≡ false
is_empty-append [] c b = refl
is_empty-append (x ∷ a) c b = refl

decode_pair-given :
    (s : Bytes) (later : Option (List (Bytes × Bytes)))
    → is_empty s ≡ false
    → decode_pair s later
      ≡ push (both (percent_decode (split_pair s).0) (percent_decode (split_pair s).1)) later
unfolding decode_pair
decode_pair-given [] later h = cc
decode_pair-given (c ∷ cs) later h = refl

split_pair_lem : (s a b : Bytes) → split_first b'=' s ≡ some (a, b) → split_pair s ≡ (a, b)
split_pair_lem s a b e = rw (e, split_pair)

decode_pair-render_pair :
    (kv : Bytes × Bytes) (later : Option (List (Bytes × Bytes)))
    → IsPair kv
    → decode_pair (render_pair kv) later ≡ push (some kv) later
decode_pair-render_pair (k, v) later (hk, hv) =
    decode_pair-given _ later (is_empty-append (percent_encode k) b'=' (percent_encode v))
    ∙ rw (
      split_pair_lem _ _ _
          (split_first-Without b'=' _ (percent_encode v) (encode-Without b'=' k (λ x e. e.3) hk)),
      percent_decode-percent_encode k hk,
      percent_decode-percent_encode v hv,
    )

pub render_pair-Without :
    (c : ℕ) (kv : Bytes × Bytes)
    → ((x : ℕ) → IsEncoded x → x ≢ c)
    → c ≢ b'='
    → IsPair kv
    → Without c (render_pair kv)
render_pair-Without c (k, v) f n h =
    All-append (λ x. x ≢ c) (percent_encode k) (b'=' ∷ percent_encode v) (encode-Without c k f h.0)
      ((λ e. n (sym e)), encode-Without c v f h.1)

parse_query_last :
    (fuel : ℕ) (s : Bytes) → Without b'&' s → parse_query fuel s ≡ decode_pair s (some [])
unfolding parse_query
parse_query_last zero s h = refl
parse_query_last (suc fuel) s h = rw (split_first-none b'&' s h, parse_query)

parse_query_more :
    (fuel : ℕ) (pair rest : Bytes)
    → Without b'&' pair
    → parse_query (suc fuel) (pair ++ b'&' ∷ rest) ≡ decode_pair pair (parse_query fuel rest)
unfolding parse_query
parse_query_more fuel pair rest h = rw (split_first-Without b'&' pair rest h, parse_query)

render_pair-no_amp : (kv : Bytes × Bytes) → IsPair kv → Without b'&' (render_pair kv)
render_pair-no_amp kv h = render_pair-Without b'&' kv (λ x e. e.2) (omega arith) h

parse_query_step :
    (fuel : ℕ) (p q : Bytes × Bytes) (ps : List (Bytes × Bytes))
    → IsPair p
    → parse_query fuel (render_pairs (q ∷ ps)) ≡ some (q ∷ ps)
    → parse_query (suc fuel) (render_pairs (p ∷ q ∷ ps)) ≡ some (p ∷ q ∷ ps)
unfolding render_pairs
parse_query_step fuel p q ps h e =
    parse_query_more fuel (render_pair p) (render_pairs (q ∷ ps)) (render_pair-no_amp p h)
    ∙ decode_pair-render_pair p _ h
    ∙ ap (push (some p)) e

parse_query_single :
    (fuel : ℕ) (p : Bytes × Bytes)
    → IsPair p
    → parse_query fuel (render_pairs (p ∷ [])) ≡ some (p ∷ [])
unfolding render_pairs
parse_query_single fuel p h =
    parse_query_last fuel (render_pair p) (render_pair-no_amp p h)
    ∙ decode_pair-render_pair p (some []) h

parse_query-render_pairs :
    (ps : List (Bytes × Bytes)) (p : Bytes × Bytes) (fuel : ℕ)
    → All IsPair (p ∷ ps)
    → length ps ≤ fuel
    → parse_query fuel (render_pairs (p ∷ ps)) ≡ some (p ∷ ps)
parse_query-render_pairs [] p fuel h k = parse_query_single fuel p h.0
parse_query-render_pairs (q ∷ ps) p zero h k = absurd (omega arith)
parse_query-render_pairs (q ∷ ps) p (suc fuel) h k =
    parse_query_step fuel p q ps h.0 (parse_query-render_pairs ps q fuel h.1 (omega arith))

length-render_pairs :
    (p : Bytes × Bytes) (ps : List (Bytes × Bytes)) → length ps ≤ length (render_pairs (p ∷ ps))
unfolding render_pairs
length-render_pairs p [] = omega arith
length-render_pairs p (q ∷ ps) =
    omega (
      arith,
      length-append (render_pair p) (b'&' ∷ render_pairs (q ∷ ps)),
      length-render_pairs q ps,
    )

split_target_query : (a b : Bytes) → Without b'?' a → split_target (a ++ b'?' ∷ b) ≡ (a, b)
split_target_query a b h = rw (split_first-Without b'?' a b h, split_target)

split_target_plain : (a : Bytes) → Without b'?' a → split_target (a ++ []) ≡ (a, [])
split_target_plain a h = rw append-nil (rw (split_first-none b'?' a h, split_target))

read_parts_lem :
    (method accept p q path : Bytes) (query : List (Bytes × Bytes))
    → percent_decode p ≡ some path
    → parse_query (length q) q ≡ some query
    → read_parts method accept (p, q)
      ≡ some (record { method = method; path = path; query = query; accept = accept })
unfolding read_parts
read_parts_lem method accept p q path query e f = rw (e, read_parts) (rw (f, read_parts))

pub read_parts-rendered :
    (method path accept : Bytes) (query : List (Bytes × Bytes))
    → All IsByte path
    → All IsPair query
    → read_parts method accept (split_target (percent_encode path ++ render_query query))
      ≡ some (record { method = method; path = path; query = query; accept = accept })
read_parts-rendered method path accept [] h k =
    rw (split_target_plain _ (encode-Without b'?' path (λ x e. e.1) h)) (
      read_parts_lem method accept _ _ path [] (percent_decode-percent_encode path h)
        (unfold parse_query decode_pair in refl))
read_parts-rendered method path accept (p ∷ ps) h k =
    rw (split_target_query _ (render_pairs (p ∷ ps)) (encode-Without b'?' path (λ x e. e.1) h)) (
      read_parts_lem method accept _ _ path (p ∷ ps) (percent_decode-percent_encode path h)
        (parse_query-render_pairs ps p _ k (length-render_pairs p ps)))
