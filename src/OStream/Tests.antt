-- ===== src/OStream/Tests.antt =====
-- The theorems on the outgoing streams, on small runs.
use tfcgi.Prelude.{ℕ, refl, false, List, [], ◌∷◌, arith}
use tfcgi.Protocol
use tfcgi.OStream.{OStream, new_ostream, write, close}
use tfcgi.OStream.Packets.{new_ostreambuf-Stamped}
use tfcgi.OStream.Closing.{SentOut, close-write}

abbrev five : List ℕ
five = 104 ∷ 101 ∷ 108 ∷ 108 ∷ 111 ∷ []

-- The standard output of the request 258.
abbrev stdout_258 : OStream
stdout_258 = new_ostream 258 Protocol.stdout

close-write_example :
    SentOut Protocol.stdout 258 false [] five
      (close (write five stdout_258 []).0 (write five stdout_258 []).1).1
close-write_example =
    close-write Protocol.stdout 258 (omega arith) false [] five stdout_258 refl refl refl
      (new_ostreambuf-Stamped Protocol.stdout 258)
