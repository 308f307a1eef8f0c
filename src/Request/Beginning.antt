-- ===== src/Request/Beginning.antt =====
-- A BEGIN_REQUEST that comes whole.
use tfcgi.Prelude.{
  ℕ, ◌≡◌, refl, ap, ◌∙◌, Bool, List, [], ◌++◌, some, length, concat, ok, replicate, eq_true, arith,
}
use tfcgi.Protocol
use tfcgi.Protocol.{Header, BeginRequestBody, begin_request_of, swap16}
use tfcgi.Socket.{ReadResult}
use tfcgi.Socket.Recv.{gots, IsChunks}
use tfcgi.Packet.Framing.{at, packet_recv_all-gots}
use tfcgi.Nvp.Deserializer.{Deserializer, new_deserializer}
use tfcgi.Request.Lifecycle.{open_inputs-request_id}
use tfcgi.Request.{
  ready, reading_params, Request, Shared, increment, accept, open_inputs, handle_begin,
  handle_packet, open_inputs,
}

-- What an accepted request is, whatever its role.
pub record Accepted (name_memory value_memory : List ℕ) (body : BeginRequestBody) (r r' : Request)
    : Type 0 where
  pub reading : r'.state ≡ reading_params
  pub at_new : r'.params_deserializer ≡ some (new_deserializer name_memory value_memory)
  pub no_params : r'.params ≡ []
  pub same_id : r'.request_id ≡ r.request_id
  pub same_body : r'.begin_request ≡ record body { role = swap16 body.role }

open_inputs-begin_request :
    (role : ℕ) (r : Request) → (open_inputs role r).begin_request ≡ r.begin_request
unfolding open_inputs
open_inputs-begin_request role r = ground arith

pub accept-Accepted :
    (name_memory value_memory : List ℕ) (body : BeginRequestBody) (r : Request)
    → Accepted name_memory value_memory body r (accept name_memory value_memory body r)
unfolding accept
accept-Accepted name_memory value_memory body r = record {
  reading = refl;
  at_new = refl;
  no_params = refl;
  same_id = open_inputs-request_id _ _;
  same_body = open_inputs-begin_request _ _;
}

module _ (limit : ℕ) (name_memory value_memory : List ℕ) (message : Deserializer → List ℕ) where
  handle_begin-gots :
      (h : Header) (r : Request) (sh : Shared) (content padding : List (List ℕ))
      (left : List ReadResult) (sane : Bool)
      → h.content_length ≡ 8
      → IsChunks content
      → IsChunks padding
      → length (concat content) ≡ 8
      → length (concat padding) ≡ h.padding_length
      → sh.socket ≡ at sane (gots content ++ (gots padding ++ left))
      → handle_begin limit name_memory value_memory message ready h r sh
        ≡ ok (
          record h { content_length = 0 },
          accept name_memory value_memory (begin_request_of (concat content)) r,
          record sh { socket = at sane left; request_actives = increment sh.request_actives },
        )
  unfolding handle_begin
  handle_begin-gots h r sh content padding left sane eight ic ip lc lp wire =
      rw
        (
          wire,
          packet_recv_all-gots (replicate 8 0) h content padding left sane (omega arith) ic ip
              (omega arith) (omega arith) lp,
        )
        refl

  -- The request is accepted, and counts in its connection.
  pub handle_packet-begin :
      (h : Header) (r : Request) (sh : Shared) (content padding : List (List ℕ))
      (left : List ReadResult) (sane : Bool)
      → h.type ≡ Protocol.begin_request
      → r.state ≡ ready
      → h.content_length ≡ 8
      → IsChunks content
      → IsChunks padding
      → length (concat content) ≡ 8
      → length (concat padding) ≡ h.padding_length
      → sh.socket ≡ at sane (gots content ++ (gots padding ++ left))
      → handle_packet limit name_memory value_memory message h r sh
        ≡ ok (
          record h { content_length = 0 },
          accept name_memory value_memory (begin_request_of (concat content)) r,
          record sh { socket = at sane left; request_actives = increment sh.request_actives },
        )
  unfolding handle_packet
  handle_packet-begin h r sh content padding left sane t st eight ic ip lc lp wire =
      rw (eq_true h.type 1 t) (
        ap (λ x. handle_begin limit name_memory value_memory message x h r sh) st
        ∙ handle_begin-gots h r sh content padding left sane eight ic ip lc lp wire)
