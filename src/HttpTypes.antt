-- ===== src/HttpTypes.antt =====
-- types/http-types/http_types.h: a request, its headers and its enumerations. A pointer is an
-- `Option` of the block that it points to.
pub mod Life
use orb_weaver.Memory.{Bytes}
use orb_weaver.Prelude.{ℕ, ◌*◌, Bool, Option, List}

abbrev pub max_http_header_line_size : ℕ
max_http_header_line_size = 8192

abbrev pub max_http_header_count : ℕ
max_http_header_count = 100

abbrev pub max_http_header_total_size : ℕ
max_http_header_total_size = max_http_header_line_size * max_http_header_count

pub data HttpRequestProtocol : Type 0 where
  version_0_9 version_1_0 version_1_1 version_count version_null : HttpRequestProtocol

pub data HttpRequestMethod : Type 0 where
  type_null type_get type_post type_put type_delete type_count : HttpRequestMethod

pub record HttpRequestHeader : Type 0 where
  pub key_size : ℕ
  pub value_size : ℕ
  pub key : Option Bytes
  pub value : Option Bytes
  pub valid : Bool

-- A `http_request_header *` of the array `http_headers`.
pub data HeaderPointer : Type 0 where
  null_header : HeaderPointer
  live : HttpRequestHeader → HeaderPointer
  freed : HeaderPointer

pub record HttpRequest : Type 0 where
  pub http_method : HttpRequestMethod
  pub http_protocol : HttpRequestProtocol
  pub http_headers : List HeaderPointer
  pub num_headers : ℕ
  pub http_route_size : ℕ
  pub http_headers_size : ℕ
  pub http_body_size : ℕ
  pub http_route : Option Bytes
  pub http_body : Option Bytes
  pub http_host : Option Bytes
