-- ===== src/Connection/Incoming.antt =====
-- A request that comes whole over a connection, through the loop of `Connection::thread_func`.
pub mod Packets
pub mod Rounds
pub mod Delivered
pub mod Tests
use tfcgi.Prelude.{
  ℕ, suc, ◌+◌, ◌-◌, ◌<◌, ◌^◌, ◌≡◌, refl, sym, ap, ◌∙◌, Bool, true, List, [], ◌∷◌, ◌++◌, Option,
  none, some, All, concat, length, set, ok, get_or-set_self, get_or-set_ne, ◌≢◌, eq_false, arith,
}
use Prim.Native.Nat.add
use mathlib.Core.List.{foldl}
use tfcgi.Protocol
use tfcgi.Protocol.{Header, header_bytes, swap16, begin_request_of}
use tfcgi.Protocol.Swap.{IsHeader, swap16-swap16, swap16-lt}
use tfcgi.Socket.{ReadResult}
use tfcgi.Socket.Recv.{gots, IsChunks}
use tfcgi.Packet.{destroy}
use tfcgi.Packet.Framing.{arriving, at, empty_packet_keeps_padding}
use tfcgi.Nvp.Deserializer.{Deserializer, forward, effective_max_pair_size}
use tfcgi.Nvp.Maps.{to_map_new_key}
use tfcgi.Nvp.Maps.Lookup.{map_get, last_value, map_get-foldl}
use tfcgi.Request.{ready, pending, Request, Shared, handle_packet}
use tfcgi.Connection.{
  Host, Connection, with_socket, dispatch, for_request, allocated, grow, entry, one_packet,
  read_loop,
}
use tfcgi.Connection.Table.{grow-Grown}
use tfcgi.Connection.Packets.{one_packet-dispatch}
use tfcgi.Connection.Loop.{read_loop_up}

-- A header as it lies on the wire, with its length high byte first.
abbrev pub on_wire : Header → Header
on_wire h = record h { content_length = swap16 h.content_length }

-- The connection shares `sh`, has the request `r` under the id, and the rest of its table is as it is
-- in `table`.
pub record Holds (table : List (Option Request)) (request_id : ℕ) (r : Request) (sh : Shared)
    (c : Connection) : Type 0 where
  pub shared : c.shared ≡ sh
  pub present : entry request_id c.requests ≡ some r
  pub others : (j : ℕ) → 0 < j → j ≢ request_id → entry j c.requests ≡ entry j table

on_wire-IsHeader : (h : Header) → IsHeader h → IsHeader (on_wire h)
on_wire-IsHeader h v = record {
  version_byte = v.version_byte;
  type_byte = v.type_byte;
  request_id_word = v.request_id_word;
  content_length_word = swap16-lt h.content_length;
  padding_length_byte = v.padding_length_byte;
  reserved_byte = v.reserved_byte;
}

module _ (host : Host) where
  -- A packet whose content the request reads to its end.
  dispatch-stored :
      (h : Header) (c : Connection) (r' : Request) (sh : Shared)
      → 0 < h.request_id
      → handle_packet host.limit host.name_memory host.value_memory host.message h
          (allocated host h.request_id (entry h.request_id c.requests))
          c.shared
        ≡ ok (record h { content_length = 0 }, r', sh)
      → dispatch host h c
        ≡ ok (
          record h { content_length = 0 },
          record c {
            requests = set (grow h.request_id c.requests) (h.request_id - 1) (some r');
            shared = sh;
          },
        )
  unfolding dispatch for_request
  dispatch-stored h c r' sh pos e =
      rw
        (
          eq_false h.request_id 0 (omega arith),
          (grow-Grown h.request_id c.requests).entries h.request_id,
          e,
        )
        refl

  -- A round of the loop over such a packet.
  pub one_packet-stored :
      (h : Header) (chunks : List (List ℕ)) (rest : List ReadResult) (c : Connection) (r' : Request)
      (sh : Shared)
      → 0 < h.request_id
      → IsHeader h
      → IsChunks chunks
      → concat chunks ≡ header_bytes (on_wire h)
      → c.shared.socket ≡ arriving true chunks rest
      → handle_packet host.limit host.name_memory host.value_memory host.message h
          (allocated host h.request_id (entry h.request_id c.requests))
          (record c.shared { socket = at true rest })
        ≡ ok (record h { content_length = 0 }, r', sh)
      → (c' : Connection) × (one_packet host c ≡ ok (true, c'))
        × Holds c.requests h.request_id r' sh c'
  one_packet-stored h chunks rest c r' sh pos v ic e wire handled =
      let table = grow h.request_id c.requests in
      (
        record c { requests = set table (h.request_id - 1) (some r'); shared = sh },
        one_packet-dispatch host (on_wire h) chunks rest c (on_wire-IsHeader h v) ic e wire
            ∙ rw
                (
                  swap16-swap16 h.content_length v.content_length_word,
                  dispatch-stored h (with_socket (at true rest) c) r' sh pos handled,
                  (empty_packet_keeps_padding (record h { content_length = 0 }) sh.socket refl).1,
                )
                refl,
        record {
          shared = refl;
          present =
              get_or-set_self table (h.request_id - 1) (some r') none
                (omega (arith, (grow-Grown h.request_id c.requests).reaches));
          others = λ j jpos ne.
              get_or-set_ne table (h.request_id - 1) (j - 1) (some r') none (λ e. ne (omega arith))
              ∙ (grow-Grown h.request_id c.requests).entries j;
        },
      )
