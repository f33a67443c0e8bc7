-- ===== src/HttpHandler/RequestLine/Unknown.antt =====
-- Request lines of an unknown method.
use orb_weaver.HttpHandler.RequestLine.Ends.{Method, get, post, put, delete, method_name}
use orb_weaver.HttpHandler.RequestLine.Words.{
  is_word, method, within, too_long-within, metadata_loop-front,
}
use orb_weaver.HttpHandler.RequestLine.{
  find_method, end_method, end_word, metadata_loop, validate_http_metadata,
}
use orb_weaver.HttpTypes.{HttpRequest, max_http_header_line_size}
use orb_weaver.Memory.Text.{
  equal, equal_iff, strcmp_equal-text, nonzero, text-nonzero, terminated-append_nul,
}
use orb_weaver.Memory.{Bytes, strcmp_equal}
use orb_weaver.Prelude.{
  ℕ, suc, ◌+◌, ◌≤◌, ◌<◌, ◌≡◌, ◌≢◌, refl, ap, ◌∙◌, true, false, some, [], ◌∷◌, ◌++◌, ok, fault,
  null_dereference, ltb, Bool-cases, inl, inr, length, get_or, drop, drop-get_or, arith, ge→ltb,
}

is_word-nonzero : (xs : Bytes) → is_word xs ≡ true → nonzero xs ≡ true
is_word-nonzero [] h = refl
is_word-nonzero (c ∷ xs) h = ground (arith, is_word-nonzero xs)

equal_ne : (a b : Bytes) → a ≢ b → equal a b ≡ false
equal_ne a b h = elim (Bool-cases (equal a b)) [
  | inl same ↦ absurd (h ((equal_iff a b).0 same))
  | inr other ↦ other
]

strcmp_equal-method :
    (m : Method) (xs zs : Bytes)
    → is_word xs ≡ true
    → xs ≢ method_name m
    → strcmp_equal (xs ++ 0 ∷ zs) (method_name m ++ 0 ∷ []) ≡ ok false
strcmp_equal-method m xs zs w other =
    strcmp_equal-text (xs ++ 0 ∷ zs) (method_name m ++ 0 ∷ []) (terminated-append_nul xs zs)
      (terminated-append_nul (method_name m) [])
    ∙ rw (
      text-nonzero xs zs (is_word-nonzero xs w),
      text-nonzero (method_name m) [] (plain m),
      equal_ne xs (method_name m) other,
    )
  where
    plain : (m : Method) → nonzero (method_name m) ≡ true
    plain get = refl
    plain _ = refl

end_word-unknown :
    (xs zs : Bytes) (i : ℕ) (r : HttpRequest)
    → is_word xs ≡ true
    → 3 ≤ length xs
    → ((m : Method) → xs ≢ method_name m)
    → end_word (within method (length xs) i 0 0 (xs ++ 0 ∷ zs)) r ≡ fault null_dereference
unfolding end_word end_method find_method
end_word-unknown xs zs i r w long other =
    let enough : ltb (length xs) 3 ≡ false = ge→ltb (length xs) 3 long in
    rw (
      enough,
      strcmp_equal-method get xs zs w (other get),
      strcmp_equal-method post xs zs w (other post),
      strcmp_equal-method put xs zs w (other put),
      strcmp_equal-method delete xs zs w (other delete),
    )

-- On a line of at most 8192 bytes whose first word has three bytes or more and is none of the four
-- methods, where `line_partition` has the size of the line and its uninitialised byte behind the word
-- happens to be 0, the search for the method compares it with the `NULL` name at the end of
-- `method_entries`.
pub validate_http_metadata-unknown_method :
    (xs rest partition : Bytes) (n : ℕ) (r : HttpRequest)
    → is_word xs ≡ true
    → 3 ≤ length xs
    → ((m : Method) → xs ≢ method_name m)
    → length xs < n
    → n ≤ max_http_header_line_size
    → length partition ≡ n
    → get_or partition (length xs) 1 ≡ 0
    → validate_http_metadata partition (some (xs ++ b' ' ∷ rest)) n r ≡ fault null_dereference
unfolding validate_http_metadata metadata_loop
validate_http_metadata-unknown_method xs rest partition n r w long other lt short width zeroed =
    let z : 0 + length xs ≡ length xs = omega arith in
    let split : drop (length xs) partition ≡ 0 ∷ drop (suc (length xs)) partition =
      drop-get_or partition (length xs) 1 (omega (arith, width))
      ∙ ap (λ y. y ∷ drop (suc (length xs)) partition) zeroed in
    rw (z, split) at
      (metadata_loop-front method xs (b' ' ∷ rest) partition 0 0 0 n r w (omega (arith, width))
        (omega arith) short)
    ∙ rw (
      too_long-within method n (length xs) (length xs) 0 0
          (xs ++ 0 ∷ drop (suc (length xs)) partition) (omega arith) short,
      end_word-unknown xs (drop (suc (length xs)) partition) (length xs) r w long other,
    )
