-- ===== src/Connection/Packets.antt =====
-- One packet that arrives whole, through the loop of the thread of a connection.
use tfcgi.Prelude.{
  none, get_or-set_self, ℕ, ◌<◌, ◌^◌, ◌≡◌, refl, sym, ◌∙◌, true, false, List, [], ◌∷◌, ◌++◌, some,
  concat, length, set, eq_false, ◌-◌, ok, ◌>>=◌, arith,
}
use tfcgi.Protocol
use tfcgi.Protocol.{Header, header_bytes, swap16}
use tfcgi.Protocol.Swap.{IsHeader, swap16-lt}
use tfcgi.Socket.{ReadResult, got}
use tfcgi.Socket.Recv.{IsChunks}
use tfcgi.Protocol.{unknown_type_bytes}
use tfcgi.OStream.Packets.{record_bytes}
use tfcgi.Request.{Request}
use tfcgi.Request.EndRecord.{handle_packet_unknown}
use tfcgi.Packet.{destroy}
use tfcgi.Packet.Framing.{
  read_packet_eof, arriving, at, read_packet-gots, empty_packet_keeps_padding,
}
use tfcgi.Connection.{
  Host, Connection, with_socket, dispatch, for_request, allocated, grow, entry, after_header,
  one_packet,
}
use tfcgi.Connection.Table.{IsTable, entry-Fits, grow-Grown}
use tfcgi.Connection.Effects.{allocated-Fits}

module _ (host : Host) where
  -- The header is read, and the packet dispatched; its destructor runs behind that.
  pub one_packet-dispatch :
      (h : Header) (chunks : List (List ℕ)) (left : List ReadResult) (c : Connection)
      → IsHeader h
      → IsChunks chunks
      → concat chunks ≡ header_bytes h
      → c.shared.socket ≡ arriving true chunks left
      → one_packet host c ≡ (
          dispatch host
            (record h { content_length = swap16 h.content_length })
            (with_socket (at true left) c)
          >>= λ (h', c'). destroy h' c'.shared.socket >>= λ s. ok (true, with_socket s c'))
  unfolding one_packet after_header
  one_packet-dispatch h chunks left c v ic e es =
      rw (es, read_packet-gots host.header_memory h chunks left true v ic e) refl

  -- The web server closed the connection where a header would begin.
  pub one_packet_eof :
      (left : List ReadResult) (c : Connection)
      → IsHeader host.header_memory
      → c.shared.socket ≡ at true (got [] ∷ left)
      → one_packet host c ≡ ok (false, with_socket (at false left) c)
  unfolding one_packet after_header
  one_packet_eof left c v es =
      rw
        (
          es,
          read_packet_eof host.header_memory left true v,
          (empty_packet_keeps_padding (record host.header_memory { content_length = 0 })
              (at false left) refl).1,
        )
        refl

  -- The type of the packet is unknown, and its content empty.
  unknown-dispatch :
      (h : Header) (c : Connection)
      → 11 < h.type
      → 0 < h.request_id
      → h.request_id < 2 ^ 16
      → IsTable c.requests
      → let table = grow h.request_id c.requests in
        dispatch host h c
        ≡ ok (
          h,
          record c {
            requests =
                set table
                  (h.request_id - 1)
                  (some (allocated host h.request_id (entry h.request_id table)));
            shared = record c.shared {
              wire =
                  c.shared.wire
                  ++ (record_bytes Protocol.unknown_type h.request_id (unknown_type_bytes h.type)
                      ∷ []);
            };
          },
        )
  unfolding dispatch for_request
  unknown-dispatch h c unknown pos small t =
      let table = grow h.request_id c.requests in
      let r = allocated host h.request_id (entry h.request_id table) in
      let named : r.request_id ≡ h.request_id =
        (allocated-Fits host h.request_id (entry h.request_id table) (
          entry-Fits h.request_id table pos ((grow-Grown h.request_id c.requests).is_table t))).1 in
      rw
        (
          eq_false h.request_id 0 (omega arith),
          handle_packet_unknown host.limit host.name_memory host.value_memory host.message h r
              c.shared unknown (omega (arith, named)),
          named,
        )
        refl

  header_bytes-record_bytes :
      (type n : ℕ)
      → n < 2 ^ 16
      → header_bytes (record {
        version = 1;
        type = type;
        request_id = swap16 n;
        content_length = 0;
        padding_length = 0;
        reserved = 0;
      })
        ≡ record_bytes type n []
  unfolding header_bytes
  header_bytes-record_bytes type n small = ground arith

  -- Defect: the request id of a header is used as it lies on the wire, high byte first, so that a
  -- packet for the request n, here one of an unknown type without content, is taken for the request
  -- with the two bytes of n swapped: that request is allocated, and the answer carries its id. The
  -- packet comes in chunks of any sizes on a sane socket.
  pub unknown_type_swaps_id :
      (type n : ℕ) (chunks : List (List ℕ)) (left : List ReadResult) (c : Connection)
      → 11 < type
      → type < 256
      → 0 < n
      → n < 2 ^ 16
      → IsChunks chunks
      → concat chunks ≡ record_bytes type n []
      → c.shared.socket ≡ arriving true chunks left
      → IsTable c.requests
      → (c' : Connection) × (r : Request) × (one_packet host c ≡ ok (true, c'))
        × (entry (swap16 n) c'.requests ≡ some r)
        × (c'.shared.wire
            ≡ c.shared.wire
              ++ (record_bytes Protocol.unknown_type (swap16 n) (unknown_type_bytes type) ∷ []))
  unknown_type_swaps_id type n chunks left c unknown byte pos small ic e es t =
      let h : Header = record {
        version = 1;
        type = type;
        request_id = swap16 n;
        content_length = 0;
        padding_length = 0;
        reserved = 0;
      } in
      let i = swap16 n in
      let ipos : 0 < i = omega arith in
      let table = grow i c.requests in
      let inside : i - 1 < length table = omega (arith, (grow-Grown i c.requests).reaches) in
      let r = allocated host i (entry i table) in
      let c1 = with_socket (at true left) c in
      let c2 : Connection = record c1 {
        requests = set table (i - 1) (some r);
        shared = record c1.shared {
          wire =
              c.shared.wire
              ++ (record_bytes Protocol.unknown_type i (unknown_type_bytes type) ∷ []);
        };
      } in
      (
        c2,
        r,
        one_packet-dispatch h chunks left c
              (record {
                version_byte = omega arith;
                type_byte = byte;
                request_id_word = swap16-lt n;
                content_length_word = omega arith;
                padding_length_byte = omega arith;
                reserved_byte = omega arith;
              })
              ic (e ∙ sym (header_bytes-record_bytes type n small)) es
            ∙ rw
                (
                  unknown-dispatch h c1 unknown ipos (swap16-lt n) t,
                  (empty_packet_keeps_padding h (at true left) refl).1,
                )
                refl,
        get_or-set_self table (i - 1) (some r) none inside,
        refl,
      )
