-- ===== src/Request/EndRecord.antt =====
-- The packets of `Connection::send_packet<T>`, against the records of the FastCGI specification.
use tfcgi.Prelude.{ℕ, ◌^◌, ◌<◌, ◌≡◌, refl, ap, List, [], ◌∷◌, ◌++◌, length, ok, eq_false, arith}
use tfcgi.Protocol
use tfcgi.Protocol.{Header, EndRequestBody, end_request_bytes, unknown_type_bytes, swap16}
use tfcgi.OStream.{Wire}
use tfcgi.OStream.Packets.{record_bytes, header_bytes-Stamped}
use tfcgi.Nvp.Deserializer.{Deserializer}
use tfcgi.Request.{Request, Shared, send_struct, send_end_request, send_unknown_type, handle_packet}

send_struct-record_bytes :
    (type request_id : ℕ) (body : List ℕ) (wire : Wire)
    → request_id < 2 ^ 16
    → length body < 2 ^ 16
    → send_struct type request_id body wire ≡ wire ++ (record_bytes type request_id body ∷ [])
unfolding send_struct
send_struct-record_bytes type request_id body wire small len =
    ap (λ (p : List ℕ). wire ++ (p ∷ []))
      (header_bytes-Stamped type request_id
        (record {
          version = 1;
          type = type;
          request_id = swap16 request_id;
          content_length = 0;
          padding_length = 0;
          reserved = 0;
        })
        body small len
        (record {
          at_version = refl;
          at_type = refl;
          at_id = refl;
          no_padding = refl;
          no_reserved = refl;
        }))

pub send_end_request-record_bytes :
    (request_id : ℕ) (body : EndRequestBody) (wire : Wire)
    → request_id < 2 ^ 16
    → send_end_request request_id body wire
      ≡ wire ++ (record_bytes Protocol.end_request request_id (end_request_bytes body) ∷ [])
unfolding send_end_request end_request_bytes
send_end_request-record_bytes request_id body wire small =
    send_struct-record_bytes Protocol.end_request request_id (end_request_bytes body) wire small
      (omega arith)

module _ (limit : ℕ) (name_memory value_memory : List ℕ) (message : Deserializer → List ℕ) where
  -- A type that the specification does not know.
  pub handle_packet_unknown :
      (h : Header) (r : Request) (sh : Shared)
      → 11 < h.type
      → r.request_id < 2 ^ 16
      → handle_packet limit name_memory value_memory message h r sh
        ≡ ok (
          h,
          r,
          record sh {
            wire =
                sh.wire
                ++ (record_bytes Protocol.unknown_type r.request_id (unknown_type_bytes h.type)
                    ∷ []);
          },
        )
  unfolding handle_packet send_unknown_type unknown_type_bytes
  handle_packet_unknown h r sh unknown small = rw (
    eq_false h.type Protocol.begin_request (omega arith),
    eq_false h.type Protocol.abort_request (omega arith),
    eq_false h.type Protocol.params (omega arith),
    eq_false h.type Protocol.stdin (omega arith),
    eq_false h.type Protocol.data_stream (omega arith),
    eq_false h.type Protocol.get_values (omega arith),
    send_struct-record_bytes Protocol.unknown_type r.request_id (unknown_type_bytes h.type) sh.wire
        small (omega arith),
  )
