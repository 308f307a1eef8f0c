-- ===== src/IStream/Tests.antt =====
-- The theorems on the incoming streams, on small runs.
use tfcgi.Prelude.{◌≡◌, List, [], ◌∷◌, ok, arith}
use tfcgi.IStream.{eof, get, pos, underflow, new_istream}
use tfcgi.IStream.Reading.{
  StreamOp, op_reset, op_feed, run, get_nothing, read_bytes, opened, read_bytes-opened,
}

-- A request takes up its input, and one packet comes.
abbrev one_fed : List StreamOp
one_fed = op_reset ∷ op_feed (97 ∷ 98 ∷ []) ∷ []

get_nothing_example :
    (get (run one_fed new_istream) ≡ ok (eof, run one_fed new_istream))
    × (underflow (run one_fed new_istream).internal ≡ ok (eof, (run one_fed new_istream).internal))
get_nothing_example = get_nothing one_fed

three_read :
    read_bytes 3 (opened ((97 ∷ []) ∷ (98 ∷ 200 ∷ []) ∷ (99 ∷ []) ∷ []) [])
    ≡ ok (pos 97 ∷ pos 98 ∷ pos 200 ∷ [], opened ((99 ∷ []) ∷ []) [])
three_read =
    read_bytes-opened ((97 ∷ []) ∷ (98 ∷ 200 ∷ []) ∷ []) ((99 ∷ []) ∷ [])
      (omega arith, (omega arith, tt))
