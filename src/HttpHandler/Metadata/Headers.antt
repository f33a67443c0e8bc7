-- ===== src/HttpHandler/Metadata/Headers.antt =====
-- What `_get_http_metadata` does with a header line.
use orb_weaver.HttpHandler.HeaderLine.Accept.{header_line, parsed, validate_http_header-parsed}
use orb_weaver.HttpHandler.HeaderLine.Fields.{key, value, is_plain}
use orb_weaver.HttpHandler.HeaderLine.Refuse.{validate_http_header-malformed_host}
use orb_weaver.HttpHandler.Metadata.{Allocations, zero_header, set_host, keep_header, parse_header}
use orb_weaver.HttpTypes.{live, HttpRequest}
use orb_weaver.Memory.Text.{text, equal, nonzero, text-nonzero}
use orb_weaver.Memory.{Bytes, codes}
use orb_weaver.Prelude.{
  ℕ, ◌+◌, ◌≡◌, ◌≢◌, refl, ap, ◌∙◌, true, false, some, [], ◌∷◌, ◌++◌, ok, fault, use_after_free,
  if◌then◌else◌, length, length-append, take, take-length, arith, inl, inr, Bool-cases,
}

abbrev pub plenty : Allocations
plenty = record { header = true; key = true; value = true; host = true }

-- A `Host` header replaces the host of the request.
abbrev pub with_host : Bytes → Bytes → HttpRequest → HttpRequest
with_host k v r = if equal k (codes "Host") then record r { http_host = some (v ++ 0 ∷ []) } else r

is_plain-nonzero : (xs : Bytes) → is_plain value xs ≡ true → nonzero xs ≡ true
is_plain-nonzero [] h = refl
is_plain-nonzero (c ∷ xs) h = ground (arith, is_plain-nonzero xs)

take-all : (xs : Bytes) → take (length xs + 1) (xs ++ 0 ∷ []) ≡ xs ++ 0 ∷ []
take-all xs =
    let len : length (xs ++ 0 ∷ []) ≡ length xs + 1 = omega (arith, length-append xs (0 ∷ [])) in
    rw (← len) (take-length (xs ++ 0 ∷ []))

-- A well-formed header line, with memory for its copies, gives a live header with both texts; only
-- a `Host` header changes the request, whose host becomes a copy of the value.
pub parse_header-parsed :
    (k v rest : Bytes) (r : HttpRequest)
    → is_plain key k ≡ true
    → is_plain value v ≡ true
    → parse_header plenty (header_line k v ++ 0 ∷ rest) (length (header_line k v)) r
      ≡ ok (live (parsed k v), with_host k v r)
unfolding parse_header keep_header set_host
parse_header-parsed k v rest r p q =
    let copied : text (take (length v + 1) (v ++ 0 ∷ [])) ≡ v =
      ap text (take-all v) ∙ text-nonzero v [] (is_plain-nonzero v q) in
    rw (validate_http_header-parsed k v rest p q false zero_header)
      (elim (Bool-cases (equal k (codes "Host"))) [
        | inl host ↦ rw (host, copied)
        | inr other ↦ rw other
      ])

-- A `Host` header whose colon has no space behind it is freed, and then its field `valid` is read.
pub parse_header-use_after_free :
    (memory : Allocations) (d : ℕ) (xs rest : Bytes) (r : HttpRequest)
    → memory.header ≡ true
    → d ≢ b' '
    → parse_header memory
        (codes "Host:" ++ d ∷ (xs ++ 0 ∷ rest))
        (length (codes "Host:" ++ d ∷ xs))
        r
      ≡ fault use_after_free
unfolding parse_header keep_header
parse_header-use_after_free memory d xs rest r got h =
    rw (
      got,
      validate_http_header-malformed_host memory.key memory.value d xs rest false zero_header h,
    )
