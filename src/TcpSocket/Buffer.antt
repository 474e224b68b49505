-- ===== src/TcpSocket/Buffer.antt =====
-- The fixed buffers of a socket: copies into them, and the bytes that are queued in them.
use lowlatency_cpp.Base.{
  ℕ, ◌+◌, ◌≤◌, ◌≡◌, refl, Option, sym, ap, ◌∙◌, List, ◌++◌, length, take, drop, arith,
  length-append, length-take, length-drop, take-append_le, take-length, append_assoc,
}
use lowlatency_cpp.TcpSocket.{TcpSocket, tcp_buffer_size, copy_to, create, connect}

-- The bytes waiting to be sent, oldest first.
abbrev pub queued : TcpSocket → List ℕ
queued s = take s.next_send_valid_index s.send_buffer

-- The bytes received and not consumed.
abbrev pub received : TcpSocket → List ℕ
received s = take s.next_rcv_valid_index s.rcv_buffer

-- Both buffers keep their size, and no index passes the end.
pub record IsValid (s : TcpSocket) : Type 0 where
  pub send_size : length s.send_buffer ≡ tcp_buffer_size
  pub send_in : s.next_send_valid_index ≤ tcp_buffer_size
  pub rcv_size : length s.rcv_buffer ≡ tcp_buffer_size
  pub rcv_in : s.next_rcv_valid_index ≤ tcp_buffer_size

pub create-IsValid :
    (send_memory rcv_memory : List ℕ)
    → length send_memory ≡ tcp_buffer_size
    → length rcv_memory ≡ tcp_buffer_size
    → IsValid (create send_memory rcv_memory)
unfolding create
create-IsValid send_memory rcv_memory e f = record {
  send_size = e;
  send_in = omega arith;
  rcv_size = f;
  rcv_in = omega arith;
}

pub connect-IsValid :
    (htons : ℕ → ℕ) (s : TcpSocket) (created : Option ℕ) (port : ℕ)
    → IsValid s
    → IsValid (connect htons s created port).0
unfolding connect
connect-IsValid htons s created port v = record {
  send_size = v.send_size;
  send_in = omega arith;
  rcv_size = v.rcv_size;
  rcv_in = omega arith;
}

-- A new connection has nothing queued.
pub connect_empty :
    (htons : ℕ → ℕ) (s : TcpSocket) (created : Option ℕ) (port : ℕ)
    → (connect htons s created port).0.next_send_valid_index ≡ 0
unfolding connect
connect_empty htons s created port = refl

-- A copy that fits writes inside the buffer.
pub length-copy_to :
    (buffer : List ℕ) (i : ℕ) (chunk : List ℕ)
    → i + length chunk ≤ length buffer
    → length (copy_to buffer i chunk) ≡ length buffer
length-copy_to buffer i chunk h = omega (
  arith,
  length-append (take i buffer) (chunk ++ drop (i + length chunk) buffer),
  length-append chunk (drop (i + length chunk) buffer),
  length-take i buffer,
  length-drop (i + length chunk) buffer,
)

-- A copy at the end of the valid part appends to it.
pub take-copy_to :
    (buffer : List ℕ) (i : ℕ) (chunk : List ℕ)
    → i + length chunk ≤ length buffer
    → take (i + length chunk) (copy_to buffer i chunk) ≡ take i buffer ++ chunk
take-copy_to buffer i chunk h =
    ap (take (i + length chunk))
      (sym (append_assoc (take i buffer) chunk (drop (i + length chunk) buffer)))
    ∙ take-append_le (i + length chunk) (take i buffer ++ chunk) _ (omega (arith, len))
    ∙ take-length (i + length chunk) (take i buffer ++ chunk) (omega (arith, len))
  where
    len : length (take i buffer ++ chunk) ≡ i + length chunk
    len = omega (arith, length-append (take i buffer) chunk, length-take i buffer)

-- A copy to the front starts with what was copied.
pub take-copy_to_front :
    (buffer chunk : List ℕ)
    → length chunk ≤ length buffer
    → take (length chunk) (copy_to buffer 0 chunk) ≡ chunk
take-copy_to_front buffer chunk h =
    take-append_le (length chunk) chunk _ (omega arith)
    ∙ take-length (length chunk) chunk (omega arith)
