-- ===== src/OStream/Closing.antt =====
-- What `close` sends, and the stream that it leaves behind.
use tfcgi.Prelude.{
  ℕ, ◌^◌, ◌<◌, ◌≡◌, sym, ap, ◌∙◌, Bool, true, false, List, [], ◌∷◌, ◌++◌, concat, All, append-nil,
  arith, if◌then◌else◌,
}
use tfcgi.OStream.{
  Wire, packet_bytes, OStreamBuf, new_ostreambuf, sync, destroy_buf, end_stream, sputn, OStream,
  write, close,
}
use tfcgi.OStream.Packets.{record_bytes, records, Stamped, packet_bytes-record_bytes}
use tfcgi.OStream.Written.{IsData, due, Carries, Carries-start, sync-Carries, sputn-Carries}

-- The packet that ends a stream.
abbrev pub eof : Bool → ℕ → ℕ → Wire
eof true type request_id = record_bytes type request_id [] ∷ []
eof false type request_id = []

-- What has gone out since `before` when the stream has sent the bytes `bs` and was closed.
abbrev pub SentOut : ℕ → ℕ → Bool → Wire → List ℕ → Wire → Type 0
SentOut type request_id started before bs wire =
    (chunks : List (List ℕ)) × All IsData chunks
    × (concat chunks ≡ bs)
    × (wire ≡ before ++ records type request_id chunks ++ eof (due started chunks) type request_id)

module _ (type request_id : ℕ) (small : request_id < 2 ^ 16) (started : Bool) (before : Wire) where
  end_stream-eof :
      (b : OStreamBuf) (wire : Wire)
      → Stamped type request_id b.header
      → end_stream (b, wire) ≡ wire ++ eof b.send_eof type request_id
  end_stream-eof b wire st = go b.send_eof
    where
      go :
          (due : Bool)
          → (if due then wire ++ (packet_bytes b.header [] ∷ []) else wire)
            ≡ wire ++ eof due type request_id
      go true =
          ap (λ p. wire ++ (p ∷ []))
            (packet_bytes-record_bytes type request_id b.header [] small (omega arith) st)
      go false = sym (append-nil wire)

  destroy_buf-Carries :
      (bs : List ℕ) (b : OStreamBuf) (wire : Wire)
      → Carries type request_id started before bs b wire
      → SentOut type request_id started before bs (destroy_buf b wire)
  unfolding destroy_buf
  destroy_buf-Carries bs b wire c =
      let (c', empty) = sync-Carries type request_id small started before bs b wire c in
      let b' = (sync b wire).0 in
      (
        c'.chunks,
        c'.data_chunks,
        sym (c'.in_order ∙ ap (◌++◌ (concat c'.chunks)) empty ∙ append-nil _),
        end_stream-eof b' (sync b wire).1 c'.stamped
            ∙ ap (λ (w : Wire). w ++ eof b'.send_eof type request_id) c'.on_wire
            ∙ ap
                (λ (d : Bool). before ++ records type request_id c'.chunks ++ eof d type request_id)
                c'.eof_due,
      )

  close_open :
      (os : OStream) (wire : Wire)
      → os.attached ≡ true
      → close os wire ≡ (
        record {
          internal =
              new_ostreambuf
                (sync os.internal wire).0.header.request_id
                (sync os.internal wire).0.header.type;
          attached = false;
        },
        destroy_buf (sync os.internal wire).0 (sync os.internal wire).1,
      )
  unfolding close
  close_open os wire up = rw up

  write_open :
      (bs : List ℕ) (os : OStream) (wire : Wire)
      → os.attached ≡ true
      → write bs os wire
        ≡ (record os { internal = (sputn bs os.internal wire).0 }, (sputn bs os.internal wire).1)
  unfolding write
  write_open bs os wire up = simp up

  -- An open stream with nothing in its buffer, written to and closed: the bytes go out whole and in
  -- order, in records of the stream's type and id that are not empty and hold at most 4096
  -- bytes, and behind them the empty record that ends the stream, just if the stream was to be
  -- ended anyway or anything was sent.
  pub close-write :
      (bs : List ℕ) (os : OStream)
      → os.attached ≡ true
      → os.internal.buffer ≡ []
      → os.internal.send_eof ≡ started
      → Stamped type request_id os.internal.header
      → SentOut type request_id started before bs
          (close (write bs os before).0 (write bs os before).1).1
  close-write bs os up e eof_set st =
      let c =
        sputn-Carries type request_id small started before bs [] os.internal before
          (Carries-start type request_id small started before os.internal e eof_set st) in
      let (b, w) = sputn bs os.internal before in
      let (c', _) = sync-Carries type request_id small started before bs b w c in
      rw (write_open bs os before up, close_open (record os { internal = b }) w up)
        (destroy_buf-Carries bs (sync b w).0 (sync b w).1 c')
