-- ===== src/Kernel.antt =====
-- What the program sees of the operating system: error numbers, and `wouldBlock` of
-- src/socket_utils.cpp, which sorts them.
use lowlatency_cpp.Base.{ℕ, Bool, true, false, ◌||◌}

-- `errno` after a call that failed.
pub data Errno : Type 0 where
  eagain : Errno
  ewouldblock : Errno
  einprogress : Errno
  eintr : Errno
  other : ℕ → Errno

abbrev pub is_eagain : Errno → Bool
is_eagain eagain = true
is_eagain _ = false

abbrev pub is_ewouldblock : Errno → Bool
is_ewouldblock ewouldblock = true
is_ewouldblock _ = false

abbrev pub is_einprogress : Errno → Bool
is_einprogress einprogress = true
is_einprogress _ = false

abbrev pub would_block : Errno → Bool
would_block e = is_eagain e || (is_ewouldblock e || is_einprogress e)
