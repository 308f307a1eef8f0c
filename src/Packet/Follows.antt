-- ===== src/Packet/Follows.antt =====
-- The operations of a packet leave the rest of the answers of the kernel.
use tfcgi.Prelude.{
  ℕ, ◌-◌, Bool-cases, inl, inr, List, length, replicate, ltb, ◌==◌, Ensures, Ensures->>=,
  Ensures_map, arith,
}
use tfcgi.Protocol.{Header, header_bytes}
use tfcgi.Protocol.Swap.{length-header_bytes}
use tfcgi.Socket.{Socket, recv_all}
use tfcgi.Socket.Follows.{
  Follows, FollowsOn, Follows-refl, Follows-trans, recv_all-Follows, recv_all-FollowsOn,
}
use tfcgi.Packet.{
  read_packet, remaining, Consumed, count, negative, consume, consume_retries, skip_padding,
  packet_recv_all, sink_to_vector, destroy,
}

pub read_packet-FollowsOn :
    (memory : Header) (s : Socket) → Ensures (read_packet memory s) (λ (h, t). FollowsOn s.reads t)
unfolding read_packet
read_packet-FollowsOn memory s =
    Ensures->>= _ (recv_all (header_bytes (record memory { content_length = 0 })) s) _ (
      recv_all-FollowsOn (header_bytes (record memory { content_length = 0 })) s
        (omega (arith, length-header_bytes (record memory { content_length = 0 }))))

skip_padding-Follows :
    (h : Header) (s : Socket) → Ensures (skip_padding h s) (λ t. Follows s.reads t)
unfolding skip_padding
skip_padding-Follows h s = elim (Bool-cases (h.content_length == 0)) [
  | inr more ↦ rw more (Follows-refl s)
  | inl done ↦ rw done (elim (Bool-cases (h.padding_length == 0)) [
    | inl no_padding ↦ rw no_padding (Follows-refl s)
    | inr padding ↦ rw padding (
        Ensures->>= _ (recv_all (replicate h.padding_length 0) s) _
          (recv_all-Follows (replicate h.padding_length 0) s))
  ])
]

consume-Follows :
    (n : Consumed) (h : Header) (s : Socket)
    → Ensures (consume n h s) (λ (again, h', t). Follows s.reads t)
unfolding consume
consume-Follows (count n) h s = elim (Bool-cases (ltb (remaining h) n)) [
  | inl over ↦ rw over tt
  | inr fits ↦ rw fits (elim (Bool-cases (n == 0)) [
    | inl none_read ↦ rw none_read tt
    | inr some_read ↦ rw some_read (
        Ensures->>= _ (skip_padding (record h { content_length = h.content_length - n }) s) _
          (skip_padding-Follows (record h { content_length = h.content_length - n }) s))
  ])
]
consume-Follows (negative e) h s = elim (Bool-cases (consume_retries e)) [
  | inl again ↦ rw again (Follows-refl s)
  | inr fails ↦ rw fails tt
]

pub packet_recv_all-Follows :
    (buffer : List ℕ) (h : Header) (s : Socket)
    → Ensures (packet_recv_all buffer h s) (λ (bytes, h', t). Follows s.reads t)
unfolding packet_recv_all
packet_recv_all-Follows buffer h s = elim (Bool-cases (ltb (remaining h) (length buffer))) [
  | inl over ↦ rw over tt
  | inr fits ↦ rw fits (elim (Bool-cases (length buffer == 0)) [
    | inl none_asked ↦ rw none_asked (Follows-refl s)
    | inr some_asked ↦ rw some_asked (
        Ensures->>= _ (recv_all buffer s) _ (
          Ensures_map (recv_all buffer s)
            (λ (bytes, s1) f. Ensures->>= _ (consume (count (length buffer)) h s1) _ (
              Ensures_map (consume (count (length buffer)) h s1)
                (λ (again, h', s2) g. Follows-trans s.reads s1 s2 f g)
                (consume-Follows (count (length buffer)) h s1)))
            (recv_all-Follows buffer s)))
  ])
]

pub sink_to_vector-Follows :
    (h : Header) (s : Socket) → Ensures (sink_to_vector h s) (λ (content, h', t). Follows s.reads t)
unfolding sink_to_vector
sink_to_vector-Follows h s = packet_recv_all-Follows (replicate (remaining h) 0) h s

pub destroy-Follows : (h : Header) (s : Socket) → Ensures (destroy h s) (λ t. Follows s.reads t)
unfolding destroy
destroy-Follows h s = elim (Bool-cases (remaining h == 0)) [
  | inl empty ↦ rw empty (Follows-refl s)
  | inr full ↦ rw full (
      Ensures->>= _ (packet_recv_all (replicate (remaining h) 0) h s) _
        (packet_recv_all-Follows (replicate (remaining h) 0) h s))
]
