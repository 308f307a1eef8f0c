-- ===== src/Nvp/Serializer.antt =====
-- `serialize_size`, `serialize_template` and `fcgi::NVP::serialize` of src/name-value-pairs.cpp.
pub mod Sizes
use Prim.Native.Nat.{bit_or}
use tfcgi.Prelude.{
  ℕ, ◌+◌, ◌*◌, ◌/◌, ◌%◌, ◌^◌, Bool, List, [], ◌∷◌, ◌++◌, Option, none, some, length, ltb,
  if◌then◌else◌, Exception, length_error,
}

-- What a writer puts into its target, and the exception that ended it, if one did.
pub record Written : Type 0 where
  pub bytes : List ℕ
  pub raised : Option Exception

abbrev pub wrote : List ℕ → Written
wrote bs = record { bytes = bs; raised = none }

-- One writer after another: an exception of the first leaves out the second.
abbrev pub next_write : List ℕ → Option Exception → Written → Written
next_write bs none w = record { bytes = bs ++ w.bytes; raised = w.raised }
next_write bs (some e) w = record { bytes = bs; raised = some e }

infixr 60 ◌then_write◌
abbrev pub ◌then_write◌ : Written → Written → Written
v then_write w = next_write v.bytes v.raised w

-- `htonl(size)` lies in memory with its high byte first; then `|= 0x80` on that byte.
abbrev pub long_size : ℕ → List ℕ
long_size n = bit_or (n / 16777216 % 256) 0x80 ∷ n / 65536 % 256 ∷ n / 256 % 256 ∷ n % 256 ∷ []

pub serialize_size : ℕ → Written
serialize_size size =
    if ltb 0x8FFFFFFF size
    then record { bytes = []; raised = some length_error }
    else if ltb 127 size
    then wrote (long_size size)
    else wrote (size ∷ [])

pub serialize : List ℕ → List ℕ → Written
unfolding serialize_size
serialize key val =
    serialize_size (length key)
    then_write serialize_size (length val)
    then_write wrote key
    then_write wrote val
