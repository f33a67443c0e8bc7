-- ===== src/HttpHandler/HeaderLine/Accept.antt =====
-- Header lines that are accepted, and those that run out of bounds.
use mathlib.Core.List.{append_assoc}
use orb_weaver.HttpHandler.HeaderLine.Fields.{
  Part, key, value, is_plain, within, header_loop-part, header_loop-nul,
}
use orb_weaver.HttpHandler.HeaderLine.{
  end_key, header_loop, persist_header, finish_header, validate_http_header,
}
use orb_weaver.HttpTypes.{HttpRequestHeader}
use orb_weaver.Memory.Text.{
  text, terminated, equal, strcmp_equal-text, nonzero, text-nonzero, terminated-append_nul,
}
use orb_weaver.Memory.{Bytes, c_string, codes, strcmp_equal}
use orb_weaver.Prelude.{
  ℕ, suc, ◌+◌, ◌≤◌, ◌≡◌, refl, ap, ◌∙◌, Bool, true, false, ◌||◌, some, [], ◌∷◌, ◌++◌, ok, ltb,
  length, drop, take, drop-zeros, length-replicate, replicate, arith, length-append, ge→ltb,
}

is_plain-nonzero : (part : Part) (xs : Bytes) → is_plain part xs ≡ true → nonzero xs ≡ true
is_plain-nonzero part [] h = refl
is_plain-nonzero key (c ∷ xs) h = ground (arith, is_plain-nonzero key xs)
is_plain-nonzero value (c ∷ xs) h = ground (arith, is_plain-nonzero value xs)

-- The line, without its closing 0.
abbrev pub header_line : Bytes → Bytes → Bytes
header_line k v = k ++ b':' ∷ b' ' ∷ v

abbrev pub parsed : Bytes → Bytes → HttpRequestHeader
parsed k v = record {
  key_size = length k;
  value_size = length v + 1;
  key = some (k ++ 0 ∷ []);
  value = some (v ++ 0 ∷ []);
  valid = true;
}

strcmp_equal-host :
    (k zs : Bytes)
    → nonzero k ≡ true
    → strcmp_equal (k ++ 0 ∷ zs) (c_string "Host") ≡ ok (equal k (codes "Host"))
unfolding terminated text
strcmp_equal-host k zs h =
    strcmp_equal-text (k ++ 0 ∷ zs) (c_string "Host") (terminated-append_nul k zs) refl
    ∙ ap (λ t. ok (equal t (codes "Host"))) (text-nonzero k zs h)

header_loop-colon :
    (k zs other rest : Bytes) (i n : ℕ)
    → nonzero k ≡ true
    → i ≤ n
    → header_loop (b':' ∷ b' ' ∷ rest) n (within key (length k) i (k ++ 0 ∷ zs) other 0 false)
      ≡ header_loop rest n
          (within value 0 (i + 2) other (k ++ 0 ∷ zs) (length k) (equal k (codes "Host") || false))
unfolding header_loop end_key
header_loop-colon k zs other rest i n h le =
    let more : ltb n i ≡ false = ge→ltb n i le in rw (more, strcmp_equal-host k zs h)

take-append : (xs ys : Bytes) → take (length xs) (xs ++ ys) ≡ xs
take-append [] ys = refl
take-append (x ∷ xs) ys = ap (◌∷◌ x) (take-append xs ys)

take-append_nul : (xs zs : Bytes) → take (length xs + 1) (xs ++ 0 ∷ zs) ≡ xs ++ 0 ∷ []
take-append_nul xs zs =
    let len : length (xs ++ 0 ∷ []) ≡ length xs + 1 = omega (arith, length-append xs (0 ∷ [])) in
    rw (← len, ← append_assoc xs (0 ∷ []) zs) (take-append (xs ++ 0 ∷ []) zs)

text-all : (xs : Bytes) → nonzero xs ≡ true → text xs ≡ xs
unfolding text
text-all [] h = refl
text-all (c ∷ xs) h = ground (arith, text-all xs)

module _ (k v rest : Bytes) (plain_key : is_plain key k ≡ true)
    (plain_value : is_plain value v ≡ true) where
  abbrev n : ℕ
  n = length (header_line k v)

  measure : n ≡ length k + 2 + length v
  measure = omega (arith, length-append k (b':' ∷ b' ' ∷ v))

  abbrev host : Bool
  host = equal k (codes "Host") || false

  abbrev key_cache : Bytes
  key_cache = k ++ 0 ∷ drop (suc (length k)) (replicate n 0)

  header_loop-key :
      header_loop
        (header_line k v ++ 0 ∷ rest)
        n
        (within key 0 0 (replicate n 0) (replicate n 0) 0 false)
      ≡ header_loop
          (b':' ∷ b' ' ∷ (v ++ 0 ∷ rest))
          n
          (within key (length k) (length k) key_cache (replicate n 0) 0 false)
  header_loop-key =
      let z : 0 + length k ≡ length k = omega arith in
      rw
        (
          append_assoc k (b':' ∷ b' ' ∷ v) (0 ∷ rest),
          ← drop-zeros n (length k) (omega (arith, measure)),
        )
        (rw z at (
          header_loop-part key k (b':' ∷ b' ' ∷ (v ++ 0 ∷ rest)) (replicate n 0) 0 n (replicate n 0)
            0 false plain_key (omega (arith, measure, length-replicate {A = ℕ} n 0))
            (omega (arith, measure))))

  header_loop-line :
      header_loop
        (header_line k v ++ 0 ∷ rest)
        n
        (within key 0 0 (replicate n 0) (replicate n 0) 0 false)
      ≡ ok (
        true,
        within value
            (length v + 1)
            (n + 1)
            (v ++ 0 ∷ drop (suc (length v)) (replicate n 0))
            key_cache
            (length k)
            host,
      )
  header_loop-line =
      let i : length k + 2 + length v ≡ n = omega (arith, measure) in
      header_loop-key
      ∙ header_loop-colon k (drop (suc (length k)) (replicate n 0)) (replicate n 0) (v ++ 0 ∷ rest)
          (length k) n (is_plain-nonzero key k plain_key) (omega (arith, measure))
      ∙ header_loop-part value v (0 ∷ rest) (replicate n 0) (length k + 2) n key_cache (length k)
          host plain_value (omega (arith, measure, length-replicate {A = ℕ} n 0))
          (omega (arith, measure))
      ∙ rw (i, drop-zeros n (length v) (omega (arith, measure)))
          (header_loop-nul rest v 0 (drop (suc (length v)) (replicate n 0)) n key_cache (length k)
            host)

  -- A line of a key, a colon, a space and a value, the key without colons and both without carriage
  -- returns and zeros, gives a valid header with copies of both, if `strndup` gets its memory;
  -- `*host_found` says whether the key is `Host`. `value_size` counts the closing 0 too, `key_size`
  -- does not.
  pub validate_http_header-parsed :
      (host_found : Bool) (result : HttpRequestHeader)
      → validate_http_header true true
          (some (header_line k v ++ 0 ∷ rest))
          (length (header_line k v))
          host_found
          (some result)
        ≡ ok (record {
          valid = true;
          host_found = equal k (codes "Host");
          header = some (parsed k v);
        })
  unfolding validate_http_header finish_header persist_header
  validate_http_header-parsed host_found result =
      let key_text : text (take (length k) key_cache) ≡ k =
        ap text (take-append k (0 ∷ drop (suc (length k)) (replicate n 0)))
        ∙ text-all k (is_plain-nonzero key k plain_key) in
      let value_text : text (take (length v + 1) (v ++ 0 ∷ drop (suc (length v)) (replicate n 0)))
          ≡ v =
        ap text (take-append_nul v (drop (suc (length v)) (replicate n 0)))
        ∙ text-nonzero v [] (is_plain-nonzero value v plain_value) in
      let same : (equal k (codes "Host") || false) ≡ equal k (codes "Host") = ground arith in
      rw (header_loop-line, key_text, value_text, same)
