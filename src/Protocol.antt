-- ===== src/Protocol.antt =====
-- include/fcgi/protocol.hpp: the records of the FastCGI protocol as they lie in memory and go over
-- the wire. A byte is a number below 256. The host is little-endian, so `htons` and `ntohs` swap
-- the bytes of a number below 2 ^ 16, and `htonl` and `ntohl` those of a number below 2 ^ 32.
pub mod Swap
use tfcgi.Prelude.{ℕ, ◌+◌, ◌*◌, ◌/◌, ◌%◌, ◌^◌, ◌<◌, List, [], ◌∷◌, ◌++◌, replicate, get_or}

-- `enum RecType : uint8_t`; a header may hold any byte.
abbrev pub begin_request : ℕ
begin_request = 1

abbrev pub abort_request : ℕ
abort_request = 2

abbrev pub end_request : ℕ
end_request = 3

abbrev pub params : ℕ
params = 4

abbrev pub stdin : ℕ
stdin = 5

abbrev pub stdout : ℕ
stdout = 6

abbrev pub stderr : ℕ
stderr = 7

abbrev pub data_stream : ℕ
data_stream = 8

abbrev pub get_values : ℕ
get_values = 9

abbrev pub get_values_result : ℕ
get_values_result = 10

abbrev pub unknown_type : ℕ
unknown_type = 11

-- `struct Header`, its two uint16_t fields as the host reads them from memory.
pub record Header : Type 0 where
  pub version : ℕ
  pub type : ℕ
  pub request_id : ℕ
  pub content_length : ℕ
  pub padding_length : ℕ
  pub reserved : ℕ

-- `enum BeginRequestRole: uint16_t`
abbrev pub responder : ℕ
responder = 1

abbrev pub authorizer : ℕ
authorizer = 2

abbrev pub filter_role : ℕ
filter_role = 3

-- `struct BeginRequestBody`; nothing reads its reserved bytes.
pub record BeginRequestBody : Type 0 where
  pub role : ℕ
  pub flags : ℕ

-- `enum EndRequestProtoStatus: uint8_t`
abbrev pub request_complete : ℕ
request_complete = 0

abbrev pub cant_mpx_conn : ℕ
cant_mpx_conn = 1

abbrev pub overloaded : ℕ
overloaded = 2

abbrev pub unknown_role : ℕ
unknown_role = 3

-- `struct EndRequestBody`; its reserved bytes are always 0 here.
pub record EndRequestBody : Type 0 where
  pub app_status : ℕ
  pub protocol_status : ℕ

-- The bytes of a uint16_t and of a uint32_t in the memory of the host.
abbrev pub bytes16 : ℕ → List ℕ
bytes16 n = n % 256 ∷ n / 256 % 256 ∷ []

abbrev pub bytes32 : ℕ → List ℕ
bytes32 n = n % 256 ∷ n / 256 % 256 ∷ n / 65536 % 256 ∷ n / 16777216 % 256 ∷ []

abbrev pub load16 : ℕ → ℕ → ℕ
load16 b0 b1 = b0 + 256 * b1

-- `htons` and `ntohs`; `htonl` and `ntohl`
abbrev pub swap16 : ℕ → ℕ
swap16 n = n % 256 * 256 + n / 256 % 256

abbrev pub swap32 : ℕ → ℕ
swap32 n = n % 256 * 16777216 + n / 256 % 256 * 65536 + n / 65536 % 256 * 256 + n / 16777216 % 256

-- The eight bytes of a header in memory.
unfoldable pub header_bytes : Header → List ℕ
header_bytes h =
    h.version ∷ h.type ∷ bytes16 h.request_id
    ++ bytes16 h.content_length
    ++ h.padding_length ∷ h.reserved ∷ []

-- The header that eight bytes of memory hold.
unfoldable pub header_of : List ℕ → Header
header_of bs = record {
  version = get_or bs 0 0;
  type = get_or bs 1 0;
  request_id = load16 (get_or bs 2 0) (get_or bs 3 0);
  content_length = load16 (get_or bs 4 0) (get_or bs 5 0);
  padding_length = get_or bs 6 0;
  reserved = get_or bs 7 0;
}

unfoldable pub end_request_bytes : EndRequestBody → List ℕ
end_request_bytes b = bytes32 b.app_status ++ b.protocol_status ∷ 0 ∷ 0 ∷ 0 ∷ []

-- `struct UnknownTypeBody`
unfoldable pub unknown_type_bytes : ℕ → List ℕ
unknown_type_bytes type = type ∷ replicate 7 0

-- The role as the host reads it from memory.
unfoldable pub begin_request_of : List ℕ → BeginRequestBody
begin_request_of bs = record {
  role = load16 (get_or bs 0 0) (get_or bs 1 0);
  flags = get_or bs 2 0;
}
