-- ===== src/Packet/Framing.antt =====
-- Where a packet leaves its connection: the records of the stream are read one after the other.
use tfcgi.Prelude.{
  ℕ, ◌-◌, ◌<◌, ◌≡◌, refl, sym, ap, ◌∙◌, Bool, List, false, [], ◌∷◌, ◌++◌, length, replicate, ok,
  concat, length-replicate, ge→ltb, arith, eq_false, length-append,
}
use tfcgi.Protocol.{Header, header_bytes, header_of, swap16}
use tfcgi.Protocol.Swap.{IsHeader, length-header_bytes, header_of-header_bytes}
use tfcgi.Socket.{Socket, ReadResult, got}
use tfcgi.Socket.Recv.{gots, IsChunks, recv_all-gots, recv_all_eof}
use tfcgi.Packet.{
  read_packet, remaining, consume, skip_padding, packet_recv_all, sink_to_vector, destroy,
}

-- The connection on which the kernel returns `chunks`, and then goes on as `left` says.
abbrev pub arriving : Bool → List (List ℕ) → List ReadResult → Socket
arriving sane chunks left = record { socket_insane = sane; reads = gots chunks ++ left }

abbrev pub at : Bool → List ReadResult → Socket
at sane left = record { socket_insane = sane; reads = left }

-- The constructor reads the eight bytes of the header, in chunks of any sizes, and no more. The
-- fields are those on the wire, `content_length` in the byte order of the host.
pub read_packet-gots :
    (memory h : Header) (chunks : List (List ℕ)) (left : List ReadResult) (sane : Bool)
    → IsHeader h
    → IsChunks chunks
    → concat chunks ≡ header_bytes h
    → read_packet memory (arriving sane chunks left)
      ≡ ok (record h { content_length = swap16 h.content_length }, at sane left)
unfolding read_packet
read_packet-gots memory h chunks left sane v c e =
    let len : length (concat chunks)
        ≡ length (header_bytes (record memory { content_length = 0 })) =
      ap length e
      ∙ length-header_bytes h
      ∙ sym (length-header_bytes (record memory { content_length = 0 })) in
    rw (recv_all-gots chunks left sane (header_bytes (record memory { content_length = 0 })) c len)
      (ap (λ (g : Header). ok (record g { content_length = swap16 g.content_length }, at sane left))
        (ap header_of e ∙ header_of-header_bytes h v))

-- At the end of the input the header is the memory of the object, its length set to 0.
pub read_packet_eof :
    (memory : Header) (left : List ReadResult) (sane : Bool)
    → IsHeader memory
    → read_packet memory (record { socket_insane = sane; reads = got [] ∷ left })
      ≡ ok (record memory { content_length = 0 }, at false left)
unfolding read_packet header_bytes
read_packet_eof memory left sane v = rw (recv_all_eof memory.version _ left sane) (
    ap (λ (g : Header). ok (record g { content_length = swap16 g.content_length }, at false left))
      (header_of-header_bytes (record memory { content_length = 0 })
        (record {
          version_byte = v.version_byte;
          type_byte = v.type_byte;
          request_id_word = v.request_id_word;
          content_length_word = omega arith;
          padding_length_byte = v.padding_length_byte;
          reserved_byte = v.reserved_byte;
        })))

skip_padding-gots :
    (h : Header) (padding : List (List ℕ)) (left : List ReadResult) (sane : Bool)
    → h.content_length ≡ 0
    → IsChunks padding
    → length (concat padding) ≡ h.padding_length
    → skip_padding h (arriving sane padding left) ≡ ok (at sane left)
unfolding skip_padding
skip_padding-gots h [] left sane z c e = rw (z, sym e)
skip_padding-gots h (p ∷ ps) left sane z (pos, c) e = rw (
  z,
  eq_false h.padding_length 0 (omega (arith, length-append p (concat ps))),
  recv_all-gots (p ∷ ps) left sane (replicate h.padding_length 0) (pos, c)
      (rw (length-replicate h.padding_length) e),
)

-- The whole content of a packet, and then the padding.
pub packet_recv_all-gots :
    (buffer : List ℕ) (h : Header) (content padding : List (List ℕ)) (left : List ReadResult)
    (sane : Bool)
    → 0 < h.content_length
    → IsChunks content
    → IsChunks padding
    → length buffer ≡ h.content_length
    → length (concat content) ≡ h.content_length
    → length (concat padding) ≡ h.padding_length
    → packet_recv_all buffer h (at sane (gots content ++ (gots padding ++ left)))
      ≡ ok (concat content, record h { content_length = 0 }, at sane left)
unfolding packet_recv_all consume
packet_recv_all-gots buffer h content padding left sane pos is_content is_padding lb lc lp =
    let drained : h.content_length - length buffer ≡ 0 = omega arith in
    rw (
      ge→ltb (remaining h) (length buffer) (omega arith),
      eq_false (length buffer) 0 (omega arith),
      recv_all-gots content (gots padding ++ left) sane buffer is_content (omega arith),
      drained,
      skip_padding-gots (record h { content_length = 0 }) padding left sane refl is_padding lp,
    )

-- Reading the content of a packet that is not empty (`sink_to_vector`) returns exactly its bytes and
-- leaves the connection behind the padding of the packet.
pub sink_to_vector-gots :
    (h : Header) (content padding : List (List ℕ)) (left : List ReadResult) (sane : Bool)
    → 0 < h.content_length
    → IsChunks content
    → IsChunks padding
    → length (concat content) ≡ h.content_length
    → length (concat padding) ≡ h.padding_length
    → sink_to_vector h (at sane (gots content ++ (gots padding ++ left)))
      ≡ ok (concat content, record h { content_length = 0 }, at sane left)
unfolding sink_to_vector
sink_to_vector-gots h content padding left sane pos ic ip lc lp =
    packet_recv_all-gots (replicate (remaining h) 0) h content padding left sane pos ic ip
      (length-replicate (remaining h) 0) lc lp

-- A packet that nobody read, and that is not empty, is skipped by the destructor, padding included:
-- the connection stands before the next packet. So are the remains of one that was read in part.
pub destroy-gots :
    (h : Header) (content padding : List (List ℕ)) (left : List ReadResult) (sane : Bool)
    → 0 < h.content_length
    → IsChunks content
    → IsChunks padding
    → length (concat content) ≡ h.content_length
    → length (concat padding) ≡ h.padding_length
    → destroy h (at sane (gots content ++ (gots padding ++ left))) ≡ ok (at sane left)
unfolding destroy
destroy-gots h content padding left sane pos ic ip lc lp = rw (
  eq_false (remaining h) 0 (omega arith),
  packet_recv_all-gots (replicate (remaining h) 0) h content padding left sane pos ic ip
      (length-replicate (remaining h) 0) lc lp,
)

-- A packet with no content is another matter: `sink_to_vector` reads nothing of it and its destructor
-- skips nothing, so that its padding stays in the stream, where the next packet is read from.
pub empty_packet_keeps_padding :
    (h : Header) (s : Socket)
    → h.content_length ≡ 0
    → (sink_to_vector h s ≡ ok ([], h, s)) × (destroy h s ≡ ok s)
unfolding sink_to_vector destroy packet_recv_all
empty_packet_keeps_padding h s e = rw e (refl, refl)
