-- ===== src/ErrorHandler.antt =====
-- utilities/error-handler/error_handler.c, less its messages.
use orb_weaver.Prelude.{Bool, true, false, ℤ, is_negative, not}

-- `caller` says whether the name of the caller was given.
unfoldable pub validate_syscall : ℤ → Bool → Bool
validate_syscall value false = false
validate_syscall value true = not (is_negative value)
