-- ===== src/Request/Headers/ReadBack.antt =====
-- What a reader of the stream finds in the headers that an application wrote.
use tfcgi.Prelude.{
  ℕ, zero, suc, ◌^◌, ◌<◌, ◌≡◌, ◌≢◌, refl, sym, ap, ◌∙◌, Bool, true, List, [], ◌∷◌, ◌++◌,
  append_assoc, Option, none, some, length, All, ◌==◌, if◌then◌else◌, eq_false, eq_true, drop,
}
use mathlib.Core.Path.{subst}
use tfcgi.Nvp.Maps.{codes}
use tfcgi.OStream.{OStream, Wire, close}
use tfcgi.OStream.Packets.{Stamped}
use tfcgi.OStream.Closing.{SentOut, close-write}
use tfcgi.OStream.Append.{write-append, write-nil}
use tfcgi.Request.Headers.{
  put, send_header, send_redirect, send_content_type, finish_headers, send_status,
  send_status_message,
}

abbrev pub ReadHeader : Type 0
ReadHeader = List ℕ × List ℕ

-- The text in front of the first `c`, and what is behind that `c`.
abbrev pub until : ℕ → List ℕ → List ℕ × List ℕ
until c [] = ([], [])
until c (x ∷ xs) = let (text, rest) = until c xs in if x == c then ([], xs) else (x ∷ text, rest)

abbrev pub with_header :
    ReadHeader → Option (List ReadHeader × List ℕ) → Option (List ReadHeader × List ℕ)
with_header h none = none
with_header h (some (hs, body)) = some (h ∷ hs, body)

-- The headers of a CGI response, up to the empty line, and the body behind it: a name, a colon, a
-- blank, and the value up to the end of the line. At most `n` headers are read.
abbrev pub read_headers : ℕ → List ℕ → Option (List ReadHeader × List ℕ)
read_headers n [] = none
read_headers zero (x ∷ xs) = if x == 10 then some ([], xs) else none
read_headers (suc n) (x ∷ xs) =
    let (name, rest) = until 58 (x ∷ xs) in
    let (value, left) = until 10 (drop 1 rest) in
    let more = read_headers n left in
    if x == 10 then some ([], xs) else with_header (name, value) more

-- No colon and no newline in the name, and no newline in the value.
abbrev pub IsReadable : ReadHeader → Type 0
IsReadable (name, value) = All (λ x. x ≢ 58) name × All (λ x. x ≢ 10) name × All (λ x. x ≢ 10) value

abbrev pub send_headers : List ReadHeader → OStream × Wire → OStream × Wire
send_headers [] out = out
send_headers ((name, value) ∷ hs) out = send_headers hs (send_header name value out)

pub until_found :
    (c : ℕ) (xs ys : List ℕ) → All (λ x. x ≢ c) xs → until c (xs ++ (c ∷ ys)) ≡ (xs, ys)
until_found c [] ys h = rw (eq_true c c refl) refl
until_found c (x ∷ xs) ys (h, hs) = rw (eq_false x c h, until_found c xs ys hs) refl

pub read_headers_line :
    (n : ℕ) (name value rest : List ℕ)
    → IsReadable (name, value)
    → read_headers (suc n) (name ++ (58 ∷ 32 ∷ (value ++ (10 ∷ rest))))
      ≡ with_header (name, value) (read_headers n rest)
read_headers_line n [] value rest (a, b, c) = rw (until_found 10 value rest c) refl
read_headers_line n (x ∷ name) value rest ((a, a2), (b, b2), c) =
    rw
      (
        eq_false x 10 b,
        eq_false x 58 a,
        until_found 58 name (32 ∷ (value ++ (10 ∷ rest))) a2,
        until_found 10 value rest c,
      )
      refl

abbrev line : ReadHeader → List ℕ
line (name, value) = ((name ++ codes ": ") ++ value) ++ codes "\n"

abbrev lines : List ReadHeader → List ℕ
lines [] = []
lines (h ∷ hs) = line h ++ lines hs

line-append :
    (name value rest : List ℕ)
    → line (name, value) ++ rest ≡ name ++ (58 ∷ 32 ∷ (value ++ (10 ∷ rest)))
line-append name value rest =
    append_assoc ((name ++ codes ": ") ++ value) (codes "\n") rest
    ∙ append_assoc (name ++ codes ": ") value (10 ∷ rest)
    ∙ append_assoc name (codes ": ") (value ++ (10 ∷ rest))

read_headers-lines :
    (hs : List ReadHeader) (body : List ℕ)
    → All IsReadable hs
    → read_headers (length hs) (lines hs ++ (10 ∷ body)) ≡ some (hs, body)
read_headers-lines [] body a = refl
read_headers-lines ((name, value) ∷ hs) body (a, as') =
    ap (read_headers (suc (length hs))) (
      append_assoc (line (name, value)) (lines hs) (10 ∷ body)
      ∙ line-append name value (lines hs ++ (10 ∷ body)))
    ∙ read_headers_line (length hs) name value (lines hs ++ (10 ∷ body)) a
    ∙ ap (with_header (name, value)) (read_headers-lines hs body as')

put-append :
    (text more : List ℕ) (out : OStream × Wire) → put more (put text out) ≡ put (text ++ more) out
put-append text more (os, wire) = sym (write-append text more os wire)

put-nil : (out : OStream × Wire) → put [] out ≡ out
put-nil (os, wire) = write-nil os wire

put-line :
    (name value : List ℕ) (out : OStream × Wire)
    → put (codes "\n") (put value (put (codes ": ") (put name out))) ≡ put (line (name, value)) out
put-line name value out =
    ap (λ o. put (codes "\n") (put value o)) (put-append name (codes ": ") out)
    ∙ ap (put (codes "\n")) (put-append (name ++ codes ": ") value out)
    ∙ put-append ((name ++ codes ": ") ++ value) (codes "\n") out

send_headers-put :
    (hs : List ReadHeader) (out : OStream × Wire) → send_headers hs out ≡ put (lines hs) out
unfolding send_header
send_headers-put [] out = sym (put-nil out)
send_headers-put ((name, value) ∷ hs) out =
    send_headers-put hs (put (codes "\n") (put value (put (codes ": ") (put name out))))
    ∙ ap (put (lines hs)) (put-line name value out)
    ∙ put-append (line (name, value)) (lines hs) out

-- Headers that an application sends on `cout`, the end of the headers and a body, with the stream
-- closed behind them, go out in records of the stream, and a reader of their contents finds just
-- these headers in this order and just this body. No name has a colon or a newline, and no value a
-- newline; the stream is open, with nothing in its buffer.
pub headers_read_back :
    (type request_id : ℕ) (started : Bool) (before : Wire) (hs : List ReadHeader) (body : List ℕ)
    (os : OStream)
    → request_id < 2 ^ 16
    → os.attached ≡ true
    → os.internal.buffer ≡ []
    → os.internal.send_eof ≡ started
    → Stamped type request_id os.internal.header
    → All IsReadable hs
    → let (os', wire) = put body (finish_headers (send_headers hs (os, before))) in
      (text : List ℕ) × SentOut type request_id started before text (close os' wire).1
      × (read_headers (length hs) text ≡ some (hs, body))
unfolding finish_headers
headers_read_back type request_id started before hs body os small up e eof st readable =
    let text = (lines hs ++ codes "\n") ++ body in
    let sent : put body (put (codes "\n") (send_headers hs (os, before))) ≡ put text (os, before) =
      ap (λ o. put body (put (codes "\n") o)) (send_headers-put hs (os, before))
      ∙ ap (put body) (put-append (lines hs) (codes "\n") (os, before))
      ∙ put-append (lines hs ++ codes "\n") body (os, before) in
    (
      text,
      subst
          (λ (out : OStream × Wire).
            SentOut type request_id started before text (close out.0 out.1).1)
          (sym sent) (close-write type request_id small started before text os up e eof st),
      ap (read_headers (length hs)) (append_assoc (lines hs) (codes "\n") body)
          ∙ read_headers-lines hs body readable,
    )

module _ (to_string : ℕ → List ℕ) where
  -- The other helpers are `sendHeader` with a name of their own; the status with a message has a
  -- blank between the two.
  pub helpers-send_header :
      (code : ℕ) (text : List ℕ) (out : OStream × Wire)
      → (send_redirect text out ≡ send_header (codes "Redirect") text out)
        × (send_content_type text out ≡ send_header (codes "Content-Type") text out)
        × (send_status to_string code out ≡ send_header (codes "Status") (to_string code) out)
        × (send_status_message to_string code text out
            ≡ send_header (codes "Status") (to_string code ++ (codes " " ++ text)) out)
  unfolding send_header send_redirect send_content_type send_status send_status_message
  helpers-send_header code text out = (
    ap (λ o. put (codes "\n") (put text o)) (sym (put-append (codes "Redirect") (codes ": ") out)),
    ap (λ o. put (codes "\n") (put text o))
        (sym (put-append (codes "Content-Type") (codes ": ") out)),
    ap (λ o. put (codes "\n") (put (to_string code) o))
        (sym (put-append (codes "Status") (codes ": ") out)),
    ap (put (codes "\n")) (
        let o = put (codes "Status: ") out in
        let ts = to_string code in
        ap (put text) (put-append ts (codes " ") o)
        ∙ put-append (ts ++ codes " ") text o
        ∙ ap (λ t. put t o) (append_assoc ts (codes " ") text)
        ∙ ap (put (ts ++ (codes " " ++ text)))
            (sym (put-append (codes "Status") (codes ": ") out))),
  )
