-- ===== src/Protocol/Swap.antt =====
-- Byte order and memory images.
use tfcgi.Prelude.{ℕ, ◌^◌, ◌<◌, ◌≡◌, refl, length, arith}
use tfcgi.Protocol.{Header, swap16, header_bytes, header_of}

pub swap16-swap16 : (n : ℕ) → n < 2 ^ 16 → swap16 (swap16 n) ≡ n
swap16-swap16 n h = omega arith

pub swap16-lt : (n : ℕ) → swap16 n < 2 ^ 16
swap16-lt n = omega arith

-- Every field holds what its C++ type can hold.
pub record IsHeader (h : Header) : Type 0 where
  pub version_byte : h.version < 256
  pub type_byte : h.type < 256
  pub request_id_word : h.request_id < 2 ^ 16
  pub content_length_word : h.content_length < 2 ^ 16
  pub padding_length_byte : h.padding_length < 256
  pub reserved_byte : h.reserved < 256

pub length-header_bytes : (h : Header) → length (header_bytes h) ≡ 8
unfolding header_bytes
length-header_bytes h = refl

pub header_of-header_bytes : (h : Header) → IsHeader h → header_of (header_bytes h) ≡ h
unfolding header_bytes header_of
header_of-header_bytes h v = ground arith
