-- ===== src/TcpSocket/Replies.antt =====
-- What `sendAndRecv` of src/tcp_socket.cpp makes of each reply of `recvmsg`, in full.
use lowlatency_cpp.Base.{ℕ, ◌≡◌, List, [], ◌∷◌, ◌++◌, true, false, Bool, ◌||◌, ℤ, pos, scale, ◌+ℤ◌}
use lowlatency_cpp.TimeUtils.{Nanos}
use lowlatency_cpp.TcpSocket.{
  TcpSocket, Cmsg, scm_timestamp, other_cmsg, RecvReply, bytes, recv_error, Kernel, Callback,
}
use lowlatency_cpp.TcpSocket.Buffer.{queued, received}
use lowlatency_cpp.TcpSocket.Flush.{breaks}

-- The time stamp of a list of control messages: of the first that has one, else 0.
pub data Stamp : List Cmsg → Nanos → Type 0 where
  no_stamp : Stamp [] (pos 0)
  stamped :
      {tv_sec tv_usec : ℤ} {cs : List Cmsg} {time : Nanos}
      → time ≡ scale tv_sec 1000000000 +ℤ scale tv_usec 1000
      → Stamp (scm_timestamp tv_sec tv_usec ∷ cs) time
  skipped : {cs : List Cmsg} {time : Nanos} → Stamp cs time → Stamp (other_cmsg ∷ cs) time

-- `m` is what the callback makes of the socket with the bytes `bs` behind those not yet consumed,
-- and of the time stamp; nothing else of the socket has changed before it, but the address.
pub record Calls (k : Kernel) (callback : Callback) (s : TcpSocket) (bs : List ℕ) (cs : List Cmsg)
    (m : TcpSocket) : Type 0 where
  pub given : TcpSocket
  pub time : Nanos
  pub called : m ≡ callback given time
  pub stamp : Stamp cs time
  pub bytes_behind : received given ≡ received s ++ bs
  pub same_queue : queued given ≡ queued s
  pub same_fd : given.fd ≡ s.fd
  pub same_send_disconnected : given.send_disconnected ≡ s.send_disconnected
  pub same_recv_disconnected : given.recv_disconnected ≡ s.recv_disconnected
  pub same_log : given.logged ≡ s.logged
  pub address : given.in_addr ≡ k.msg_name s.in_addr

-- What a reply of `recvmsg` makes of the result and of the socket `m` that the sending part gets.
abbrev pub Handles : Kernel → Callback → TcpSocket → RecvReply → Bool → TcpSocket → Type 0
Handles k callback s (bytes [] cs) result m =
    (result ≡ false) × (m ≡ record s { in_addr = k.msg_name s.in_addr; recv_disconnected = true })
Handles k callback s (bytes (b ∷ bs) cs) result m =
    (result ≡ true) × Calls k callback s (b ∷ bs) cs m
Handles k callback s (recv_error e) result m =
    (result ≡ false)
    × (m ≡ record s {
      in_addr = k.msg_name s.in_addr;
      recv_disconnected = breaks e || s.recv_disconnected;
    })
