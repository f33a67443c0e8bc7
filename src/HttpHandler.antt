-- ===== src/HttpHandler.antt =====
-- services/http/http-handler/http_handler.c: the parser of a request.
pub mod RequestLine
pub mod HeaderLine
pub mod Metadata
pub mod Process
