-- ===== src/OStream/Written.antt =====
-- What is written to a stream goes out in order, in packets that fit the buffer.
use tfcgi.Prelude.{
  ℕ, ◌^◌, ◌≤◌, ◌<◌, ◌≡◌, refl, sym, ap, ◌∙◌, Bool, true, List, [], ◌∷◌, ◌++◌, length, length-append,
  concat, All, append_assoc, append-nil, arith, Bool-cases, inl, inr, ltb, ◌==◌, some,
  eq_nil_of_length,
}
use tfcgi.OStream.{Wire, packet_bytes, data_size, OStreamBuf, sync, overflow, sputc, sputn}
use tfcgi.OStream.Packets.{records, records-append, Stamped, packet_bytes-record_bytes}

-- A packet of a stream is not empty and fits the buffer.
abbrev pub IsData : List ℕ → Type 0
IsData c = (0 < length c) × (length c ≤ data_size)

concat-append : (cs ds : List (List ℕ)) → concat (cs ++ ds) ≡ concat cs ++ concat ds
concat-append [] ds = refl
concat-append (c ∷ cs) ds =
    ap (◌++◌ c) (concat-append cs ds) ∙ sym (append_assoc c (concat cs) (concat ds))

All-append : (cs ds : List (List ℕ)) → All IsData cs → All IsData ds → All IsData (cs ++ ds)
All-append [] ds h k = k
All-append (c ∷ cs) ds (h, hs) k = (h, All-append cs ds hs k)

-- The end-of-stream packet is due if it was from the start, or if anything was sent.
abbrev pub due : Bool → List (List ℕ) → Bool
due started [] = started
due started (c ∷ cs) = true

due_more : (started : Bool) (cs : List (List ℕ)) (c : List ℕ) → due started (cs ++ (c ∷ [])) ≡ true
due_more started [] c = refl
due_more started (d ∷ cs) c = refl

-- The bytes `bs` were written since `before` had gone out: some have gone out in packets of this
-- type and request id, and the buffer holds the rest.
pub record Carries (type request_id : ℕ) (started : Bool) (before : Wire) (bs : List ℕ)
    (b : OStreamBuf) (wire : Wire) : Type 0 where
  pub chunks : List (List ℕ)
  pub data_chunks : All IsData chunks
  pub on_wire : wire ≡ before ++ records type request_id chunks
  pub in_order : bs ≡ concat chunks ++ b.buffer
  pub room : length b.buffer ≤ data_size
  pub stamped : Stamped type request_id b.header
  pub eof_due : b.send_eof ≡ due started chunks

module _ (type request_id : ℕ) (small : request_id < 2 ^ 16) (started : Bool) (before : Wire) where
  pub Carries-start :
      (b : OStreamBuf)
      → b.buffer ≡ []
      → b.send_eof ≡ started
      → Stamped type request_id b.header
      → Carries type request_id started before [] b before
  Carries-start b e up st = record {
    chunks = [];
    data_chunks = tt;
    on_wire = sym (append-nil before);
    in_order = sym e;
    room = rw e (omega arith);
    stamped = st;
    eof_due = up;
  }

  one_more :
      (bs : List ℕ) (b : OStreamBuf) (wire : Wire)
      (c : Carries type request_id started before bs b wire)
      → wire ++ (packet_bytes b.header b.buffer ∷ [])
        ≡ before ++ records type request_id (c.chunks ++ (b.buffer ∷ []))
  one_more bs b wire c =
      let out : List (List ℕ) = records type request_id c.chunks in
      let packet =
        packet_bytes-record_bytes type request_id b.header b.buffer small (omega (arith, c.room))
          c.stamped in
      ap (λ (w : Wire). w ++ (packet_bytes b.header b.buffer ∷ [])) c.on_wire
      ∙ append_assoc before out (packet_bytes b.header b.buffer ∷ [])
      ∙ ap (λ (p : List ℕ). before ++ (out ++ (p ∷ []))) packet
      ∙ ap (◌++◌ before) (sym (records-append type request_id c.chunks (b.buffer ∷ [])))

  pub sync-Carries :
      (bs : List ℕ) (b : OStreamBuf) (wire : Wire)
      → Carries type request_id started before bs b wire
      → Carries type request_id started before bs (sync b wire).0 (sync b wire).1
        × ((sync b wire).0.buffer ≡ [])
  unfolding sync
  sync-Carries bs b wire c = elim (Bool-cases (length b.buffer == 0)) [
    | inl idle ↦ rw idle (c, eq_nil_of_length b.buffer (ground arith))
    | inr busy ↦ rw busy (
      record {
        chunks = c.chunks ++ (b.buffer ∷ []);
        data_chunks =
            All-append c.chunks (b.buffer ∷ []) c.data_chunks ((ground arith, c.room), tt);
        on_wire = one_more bs b wire c;
        in_order =
            c.in_order
            ∙ sym (
                concat-append c.chunks (b.buffer ∷ [])
                ∙ ap (◌++◌ (concat c.chunks)) (append-nil b.buffer))
            ∙ sym (append-nil _);
        room = omega arith;
        stamped = record {
          at_version = c.stamped.at_version;
          at_type = c.stamped.at_type;
          at_id = c.stamped.at_id;
          no_padding = c.stamped.no_padding;
          no_reserved = c.stamped.no_reserved;
        };
        eof_due = sym (due_more started c.chunks b.buffer);
      },
      refl,
    )
  ]

  overflow-Carries :
      (x : ℕ) (bs : List ℕ) (b : OStreamBuf) (wire : Wire)
      → Carries type request_id started before bs b wire
      → Carries type request_id started before
          (bs ++ (x ∷ []))
          (overflow (some x) b wire).0
          (overflow (some x) b wire).1
  unfolding overflow
  overflow-Carries x bs b wire c =
      let (c', empty) = sync-Carries bs b wire c in
      record {
        chunks = c'.chunks;
        data_chunks = c'.data_chunks;
        on_wire = c'.on_wire;
        in_order =
            ap (λ (l : List ℕ). l ++ (x ∷ []))
              (c'.in_order ∙ ap (◌++◌ (concat c'.chunks)) empty ∙ append-nil _);
        room = omega arith;
        stamped = record {
          at_version = c'.stamped.at_version;
          at_type = c'.stamped.at_type;
          at_id = c'.stamped.at_id;
          no_padding = c'.stamped.no_padding;
          no_reserved = c'.stamped.no_reserved;
        };
        eof_due = c'.eof_due;
      }

  sputc-Carries :
      (x : ℕ) (bs : List ℕ) (b : OStreamBuf) (wire : Wire)
      → Carries type request_id started before bs b wire
      → Carries type request_id started before
          (bs ++ (x ∷ []))
          (sputc x b wire).0
          (sputc x b wire).1
  unfolding sputc
  sputc-Carries x bs b wire c = elim (Bool-cases (ltb (length b.buffer) data_size)) [
    | inl fits ↦ rw fits (record {
      chunks = c.chunks;
      data_chunks = c.data_chunks;
      on_wire = c.on_wire;
      in_order =
          ap (λ (l : List ℕ). l ++ (x ∷ [])) c.in_order
          ∙ append_assoc (concat c.chunks) b.buffer (x ∷ []);
      room = ground (arith, length-append b.buffer (x ∷ []));
      stamped = c.stamped;
      eof_due = c.eof_due;
    })
    | inr full ↦ rw full (overflow-Carries x bs b wire c)
  ]

  pub sputn-Carries :
      (cs bs : List ℕ) (b : OStreamBuf) (wire : Wire)
      → Carries type request_id started before bs b wire
      → Carries type request_id started before (bs ++ cs) (sputn cs b wire).0 (sputn cs b wire).1
  unfolding sputn
  sputn-Carries [] bs b wire c = rw (append-nil bs) c
  sputn-Carries (x ∷ cs) bs b wire c =
      let (b', wire') = sputc x b wire in
      rw append_assoc at (sputn-Carries cs (bs ++ (x ∷ [])) b' wire' (sputc-Carries x bs b wire c))
