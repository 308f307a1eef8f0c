-- ===== src/Packet/Tests.antt =====
-- The theorems on src/ipacket.cpp, on small packets.
use tfcgi.Prelude.{ℕ, ◌-◌, ◌≤◌, ◌≡◌, refl, true, List, [], ◌∷◌, ◌++◌, ok, length, arith}
use tfcgi.Protocol
use tfcgi.Protocol.{Header, header_bytes}
use tfcgi.Protocol.Swap.{IsHeader}
use tfcgi.Socket.{ReadResult, got}
use tfcgi.Socket.Recv.{gots}
use tfcgi.Packet.{sink_to_vector, packet_recv_all, destroy}
use tfcgi.Packet.Framing.{at, sink_to_vector-gots, empty_packet_keeps_padding}
use tfcgi.Packet.Consume.{IsRead, packet_recv_all_bounds}

-- On the wire: a packet of three bytes with two of padding, for the request 5.
abbrev on_wire : Header
on_wire = record {
  version = 1;
  type = Protocol.stdin;
  request_id = 1280;
  content_length = 768;
  padding_length = 2;
  reserved = 0;
}

abbrev in_memory : Header
in_memory = record on_wire { content_length = 3 }

abbrev bytes_of_header : List (List ℕ)
bytes_of_header = (1 ∷ 5 ∷ 0 ∷ []) ∷ (5 ∷ 0 ∷ 3 ∷ 2 ∷ 0 ∷ []) ∷ []

abbrev content : List (List ℕ)
content = (97 ∷ []) ∷ (98 ∷ 99 ∷ []) ∷ []

abbrev abc : List ℕ
abc = 97 ∷ 98 ∷ 99 ∷ []

abbrev three_zeros : List ℕ
three_zeros = 0 ∷ 0 ∷ 0 ∷ []

abbrev padding : List (List ℕ)
padding = (0 ∷ 0 ∷ []) ∷ []

abbrev next : List ReadResult
next = got (1 ∷ []) ∷ []

on_wire-IsHeader : IsHeader on_wire
on_wire-IsHeader = record {
  version_byte = omega arith;
  type_byte = omega arith;
  request_id_word = omega arith;
  content_length_word = omega arith;
  padding_length_byte = omega arith;
  reserved_byte = omega arith;
}

bytes_of_header_lem : 1 ∷ 5 ∷ 0 ∷ 5 ∷ 0 ∷ 3 ∷ 2 ∷ 0 ∷ [] ≡ header_bytes on_wire
unfolding header_bytes
bytes_of_header_lem = refl

in_memory_read :
    sink_to_vector in_memory (at true (gots content ++ (gots padding ++ next)))
    ≡ ok (97 ∷ 98 ∷ 99 ∷ [], record in_memory { content_length = 0 }, at true next)
in_memory_read =
    sink_to_vector-gots in_memory content padding next true (omega arith)
      (omega arith, (omega arith, tt)) (omega arith, tt) refl refl

-- The same with the zeros that `sink_to_vector` fills the vector with.
three_read :
    packet_recv_all three_zeros in_memory (at true (gots content ++ (gots padding ++ next)))
    ≡ ok (97 ∷ 98 ∷ 99 ∷ [], record in_memory { content_length = 0 }, at true next)
unfolding sink_to_vector
three_read = in_memory_read

packet_recv_all_bounds_example :
    (3 ≤ 3)
    × (length abc ≡ length three_zeros)
    × (record in_memory { content_length = 0 } ≡ record in_memory { content_length = 3 - 3 })
    × IsRead abc (at true (gots content ++ (gots padding ++ next))) (at true next)
packet_recv_all_bounds_example =
    packet_recv_all_bounds three_zeros abc in_memory (record in_memory { content_length = 0 })
      (at true (gots content ++ (gots padding ++ next))) (at true next) three_read

empty_keeps :
    (sink_to_vector (record in_memory { content_length = 0 }) (at true (gots padding ++ next))
      ≡ ok ([], record in_memory { content_length = 0 }, at true (gots padding ++ next)))
    × (destroy (record in_memory { content_length = 0 }) (at true (gots padding ++ next))
        ≡ ok (at true (gots padding ++ next)))
empty_keeps =
    empty_packet_keeps_padding (record in_memory { content_length = 0 })
      (at true (gots padding ++ next)) refl
