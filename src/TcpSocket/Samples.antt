-- ===== src/TcpSocket/Samples.antt =====
-- A socket with nothing in its buffers, for the runs at concrete inputs.
use lowlatency_cpp.Base.{
  ℕ, ◌≡◌, Option, List, [], length, arith, false, replicate, length-replicate,
}
use lowlatency_cpp.TcpSocket.{TcpSocket, tcp_buffer_size, no_addr}
use lowlatency_cpp.TcpSocket.Buffer.{IsValid}

pub memory : List ℕ
memory = replicate tcp_buffer_size 0

pub length-memory : length memory ≡ tcp_buffer_size
unfolding memory
length-memory = length-replicate {A = ℕ} tcp_buffer_size 0

abbrev pub blank : Option ℕ → TcpSocket
blank fd = record {
  fd = fd;
  send_buffer = memory;
  next_send_valid_index = 0;
  rcv_buffer = memory;
  next_rcv_valid_index = 0;
  send_disconnected = false;
  recv_disconnected = false;
  in_addr = no_addr;
  logged = [];
}

pub blank-IsValid : (fd : Option ℕ) → IsValid (blank fd)
blank-IsValid fd = record {
  send_size = length-memory;
  send_in = omega arith;
  rcv_size = length-memory;
  rcv_in = omega arith;
}
