-- ===== src/HttpHandler/RequestLine/Ends.antt =====
-- What the end of each word does.
use orb_weaver.HttpHandler.RequestLine.Words.{is_word, method, route, protocol, within}
use orb_weaver.HttpHandler.RequestLine.{
  continue, return, find_method, find_protocol, strlen, end_method, store_route, end_route,
  end_protocol, end_word,
}
use orb_weaver.HttpTypes.{
  HttpRequestMethod, type_get, type_post, type_put, type_delete, HttpRequestProtocol, version_1_0,
  version_1_1, HttpRequest,
}
use orb_weaver.Memory.Text.{paste-drop}
use orb_weaver.Memory.{Bytes, codes, read, copy, strcmp_equal}
use orb_weaver.Prelude.{
  ℕ, suc, ◌+◌, ◌≤◌, ◌≡◌, ◌≢◌, refl, true, false, some, [], ◌∷◌, ◌++◌, ok, fault, null_dereference,
  ltb, ◌==◌, ==_ne, length, drop, arith, ge→ltb, length-append,
}

pub data Method : Type 0 where
  get post put delete : Method

abbrev pub method_name : Method → Bytes
method_name get = codes "GET"
method_name post = codes "POST"
method_name put = codes "PUT"
method_name delete = codes "DELETE"

abbrev pub method_type : Method → HttpRequestMethod
method_type get = type_get
method_type post = type_post
method_type put = type_put
method_type delete = type_delete

-- `HTTP` without a version is accepted too, and leaves the version as it was.
pub data Protocol : Type 0 where
  unversioned http_1_0 http_1_1 : Protocol

abbrev pub protocol_name : Protocol → Bytes
protocol_name unversioned = codes "HTTP"
protocol_name http_1_0 = codes "HTTP/1.0"
protocol_name http_1_1 = codes "HTTP/1.1"

abbrev pub protocol_type : Protocol → HttpRequestProtocol → HttpRequestProtocol
protocol_type unversioned old = old
protocol_type http_1_0 old = version_1_0
protocol_type http_1_1 old = version_1_1

pub method_name-is_word : (m : Method) → is_word (method_name m) ≡ true
method_name-is_word get = refl
method_name-is_word _ = refl

pub protocol_name-is_word : (p : Protocol) → is_word (protocol_name p) ≡ true
protocol_name-is_word unversioned = refl
protocol_name-is_word _ = refl

strlen-word : (xs zs : Bytes) → is_word xs ≡ true → strlen (xs ++ 0 ∷ zs) ≡ ok (length xs)
unfolding strlen
strlen-word [] zs w = refl
strlen-word (c ∷ xs) zs w =
    let inside : (c == 0) ≡ false = ground arith in
    let succ : length xs + 1 ≡ suc (length xs) = omega arith in
    rw (inside, strlen-word xs zs (ground arith), succ)

copy-word : (xs zs : Bytes) → copy (xs ++ 0 ∷ zs) (suc (length xs)) ≡ ok (xs ++ 0 ∷ [])
unfolding copy
copy-word [] zs = refl
copy-word (c ∷ xs) zs = rw (copy-word xs zs)

pub end_word-method :
    (m : Method) (i a b : ℕ) (zs : Bytes) (r : HttpRequest)
    → end_word (within method (length (method_name m)) i a b (method_name m ++ 0 ∷ zs)) r
      ≡ ok (continue (record r { http_method = method_type m }))
unfolding end_word end_method find_method strcmp_equal
end_word-method get i a b zs r = refl
end_word-method _ i a b zs r = refl

pub end_word-uninitialised :
    (m : Method) (i a b y : ℕ) (zs : Bytes) (r : HttpRequest)
    → y ≢ 0
    → end_word (within method (length (method_name m)) i a b (method_name m ++ y ∷ zs)) r
      ≡ fault null_dereference
unfolding end_word end_method find_method strcmp_equal
end_word-uninitialised get i a b y zs r h = rw (==_ne y 0 h)
end_word-uninitialised post i a b y zs r h = rw (==_ne y 0 h)
end_word-uninitialised put i a b y zs r h = rw (==_ne y 0 h)
end_word-uninitialised delete i a b y zs r h = rw (==_ne y 0 h)

-- The buffer behind a route that was copied into it.
abbrev pub stored_route : Bytes → Bytes → Bytes
stored_route path buffer = b'/' ∷ (path ++ 0 ∷ []) ++ drop (suc (length (path ++ 0 ∷ []))) buffer

pub end_word-route :
    (path zs buffer : Bytes) (i a b : ℕ) (r : HttpRequest)
    → is_word path ≡ true
    → r.http_route ≡ some buffer
    → length path + 2 ≤ length buffer
    → end_word (within route (suc (length path)) i a b (b'/' ∷ path ++ 0 ∷ zs)) r
      ≡ ok (
          continue (record r {
            http_route = some (stored_route path buffer);
            http_route_size = suc (length path);
          }))
unfolding end_word end_route store_route read
end_word-route path zs buffer i a b r w has room =
    let fits : length (b'/' ∷ (path ++ 0 ∷ [])) ≤ length buffer =
      omega (arith, length-append path (0 ∷ [])) in
    let guard : ltb (suc (length path)) 1 ≡ false = ge→ltb (suc (length path)) 1 (omega arith) in
    let succ : suc (length path) + 1 ≡ suc (suc (length path)) = omega arith in
    rw (
      guard,
      has,
      strlen-word (b'/' ∷ path) zs w,
      succ,
      copy-word (b'/' ∷ path) zs,
      paste-drop (b'/' ∷ (path ++ 0 ∷ [])) buffer fits,
    )

pub end_word-protocol :
    (p : Protocol) (i a b : ℕ) (zs : Bytes) (r : HttpRequest)
    → end_word (within protocol (length (protocol_name p)) i a b (protocol_name p ++ 0 ∷ zs)) r
      ≡ ok (return true (record r { http_protocol = protocol_type p r.http_protocol }))
unfolding end_word end_protocol find_protocol strcmp_equal
end_word-protocol unversioned i a b zs r = refl
end_word-protocol _ i a b zs r = refl
