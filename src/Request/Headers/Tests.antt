-- ===== src/Request/Headers/Tests.antt =====
-- The theorems on the helpers of `Request`, on a page with two headers.
use tfcgi.Prelude.{ℕ, ◌≡◌, refl, false, List, [], ◌∷◌, some, arith}
use tfcgi.Protocol
use tfcgi.Nvp.Maps.{codes}
use tfcgi.OStream.{OStream, Wire, new_ostream, close}
use tfcgi.OStream.Packets.{new_ostreambuf-Stamped}
use tfcgi.OStream.Closing.{SentOut}
use tfcgi.Request.Headers.{put, finish_headers}
use tfcgi.Request.Headers.ReadBack.{ReadHeader, read_headers, send_headers, headers_read_back}

abbrev cout : OStream
cout = new_ostream 1 Protocol.stdout

-- "Allow: GET" and "Age: 7", and "ok".
abbrev page_headers : List ReadHeader
page_headers = (codes "Allow", codes "GET") ∷ (codes "Age", codes "7") ∷ []

abbrev page : OStream × Wire
page = put (codes "ok") (finish_headers (send_headers page_headers (cout, [])))

headers_read_back_example :
    (text : List ℕ) × SentOut Protocol.stdout 1 false [] text (close page.0 page.1).1
    × (read_headers 2 text ≡ some (page_headers, codes "ok"))
headers_read_back_example =
    headers_read_back Protocol.stdout 1 false [] page_headers (codes "ok") cout (omega arith) refl
      refl refl (new_ostreambuf-Stamped Protocol.stdout 1) (ground arith)

abbrev digits : ℕ → List ℕ
digits n = codes "404"

abbrev out : OStream × Wire
out = (cout, [])
