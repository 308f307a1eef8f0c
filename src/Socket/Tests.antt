-- ===== src/Socket/Tests.antt =====
-- The theorems on src/connection.cpp's `recv_all` and `send_packet`, on small runs.
use tfcgi.Prelude.{ℕ, ◌≡◌, refl, true, false, List, [], ◌∷◌, ◌++◌, ok, length, concat, arith}
use tfcgi.Socket.{
  Socket, got, read_failed, sent, send_failed, eintr, enobufs, epipe, recv_all, send_packet,
}
use tfcgi.Socket.Recv.{gots, IsChunks, recv_all-gots, recv_all_interrupted}
use tfcgi.Socket.Received.{recv_all_sane}
use tfcgi.Socket.Send.{send_packet-Delivers}

abbrev three_bytes : List ℕ
three_bytes = 1 ∷ 2 ∷ 3 ∷ []

abbrev three_zeros : List ℕ
three_zeros = 0 ∷ 0 ∷ 0 ∷ []

abbrev two_reads : List (List ℕ)
two_reads = (1 ∷ []) ∷ (2 ∷ 3 ∷ []) ∷ []

abbrev two_reads_socket : Socket
two_reads_socket = record { socket_insane = true; reads = gots two_reads ++ (got (9 ∷ []) ∷ []) }

abbrev nine_left : Socket
nine_left = record { socket_insane = true; reads = got (9 ∷ []) ∷ [] }

two_reads-IsChunks : IsChunks two_reads
two_reads-IsChunks = (omega arith, (omega arith, tt))

two_reads_received : recv_all three_zeros two_reads_socket ≡ ok (1 ∷ 2 ∷ 3 ∷ [], nine_left)
two_reads_received =
    recv_all-gots two_reads (got (9 ∷ []) ∷ []) true three_zeros two_reads-IsChunks refl

recv_all_sane_example :
    (true ≡ true)
    × (length three_bytes ≡ length three_zeros)
    × ((chunks : List (List ℕ)) × IsChunks chunks
        × (two_reads_socket.reads ≡ gots chunks ++ nine_left.reads)
        × (three_bytes ≡ concat chunks))
recv_all_sane_example =
    recv_all_sane three_zeros three_bytes two_reads_socket nine_left two_reads_received refl

recv_all_interrupted_example :
    recv_all (0 ∷ 0 ∷ []) (record {
      socket_insane = true;
      reads = got (1 ∷ []) ∷ read_failed eintr ∷ got (2 ∷ []) ∷ [];
    })
    ≡ ok (1 ∷ 2 ∷ [], record { socket_insane = false; reads = [] })
recv_all_interrupted_example =
    recv_all_interrupted eintr ((1 ∷ []) ∷ []) ((2 ∷ []) ∷ []) [] true (0 ∷ 0 ∷ []) refl
      (omega arith, tt) (omega arith, tt) (omega arith) refl

-- The peer closes the connection after the first byte.
send_packet_broken :
    send_packet (sent 1 ∷ send_failed eintr ∷ send_failed epipe ∷ []) three_bytes ≡ ok (1 ∷ [], [])
unfolding send_packet
send_packet_broken = refl

send_packet-Delivers_example :
    send_packet (sent 1 ∷ send_failed enobufs ∷ sent 2 ∷ []) three_bytes ≡ ok (1 ∷ 2 ∷ 3 ∷ [], [])
send_packet-Delivers_example =
    send_packet-Delivers (sent 1 ∷ send_failed enobufs ∷ sent 2 ∷ []) [] three_bytes
      (omega arith, omega arith, (omega arith, refl, (omega arith, omega arith, refl)))
