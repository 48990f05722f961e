-- ===== src/Errors/Laws.antt =====
-- How the classifications of src/error.rs agree.
use cifs_client_stream.Common.{◌≡◌, true, false, arith}
use cifs_client_stream.Errors.{Error, is_connection_lost, is_retryable, is_timeout}

-- A lost connection is always retryable and is never classified as a timeout.
pub is_connection_lost-is_retryable :
    (e : Error) → is_connection_lost e ≡ true → (is_retryable e ≡ true) × (is_timeout e ≡ false)
unfolding is_connection_lost is_retryable is_timeout
is_connection_lost-is_retryable e h = ground arith
