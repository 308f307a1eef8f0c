-- ===== src/Request/Headers.antt =====
-- "Some utilities" of include/fcgi/request.hpp: the headers that an application writes to `cout`.
-- The stream is taken with what it has sent, and returned with it.
pub mod ReadBack
mod Tests
use tfcgi.Prelude.{ℕ, List, [], ◌∷◌, ◌++◌}
use tfcgi.Nvp.Maps.{codes}
use tfcgi.OStream
use tfcgi.OStream.{OStream, Wire}

-- `cout << text`
abbrev pub put : List ℕ → OStream × Wire → OStream × Wire
put text (os, wire) = OStream.write text os wire

-- A text, ": ", a text, and a newline.
pub send_header : List ℕ → List ℕ → OStream × Wire → OStream × Wire
send_header key value out = put (codes "\n") (put value (put (codes ": ") (put key out)))

pub send_redirect : List ℕ → OStream × Wire → OStream × Wire
send_redirect destination out = put (codes "\n") (put destination (put (codes "Redirect: ") out))

pub send_content_type : List ℕ → OStream × Wire → OStream × Wire
send_content_type mime out = put (codes "\n") (put mime (put (codes "Content-Type: ") out))

pub finish_headers : OStream × Wire → OStream × Wire
finish_headers out = put (codes "\n") out

-- The text of a number is a parameter.
module _ (to_string : ℕ → List ℕ) where
  pub send_status : ℕ → OStream × Wire → OStream × Wire
  send_status code out = put (codes "\n") (put (to_string code) (put (codes "Status: ") out))

  pub send_status_message : ℕ → List ℕ → OStream × Wire → OStream × Wire
  send_status_message code msg out =
      put (codes "\n")
        (put msg (put (codes " ") (put (to_string code) (put (codes "Status: ") out))))
