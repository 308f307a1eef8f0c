-- ===== src/Packet/Consume.antt =====
-- `ipacket::consume` and `ipacket::recv_all` on every branch.
use tfcgi.Prelude.{
  ℕ, ◌++◌, concat, ap, Ensures, Ensures->>=, Ensures_map, Ensures_elim, ltb, [], ◌∷◌, replicate,
  ◌-◌, ◌≤◌, ◌<◌, ◌≡◌, refl, Bool, true, false, List, length, ◌==◌, if◌then◌else◌, Result, ok, stop,
  thrown, logic_error, ◌>>=◌, arith, inl, inr, Bool-cases, >>=-eq-ok,
}
use tfcgi.Protocol.{Header, header_bytes}
use tfcgi.Socket.{Socket, Errno, ReadResult, recv_all}
use tfcgi.Socket.Received.{recv_all-Ensures, recv_all-Received}
use tfcgi.Socket.Recv.{gots}
use tfcgi.Protocol.Swap.{length-header_bytes}
use tfcgi.Packet.{
  read_packet, skip_padding, remaining, count, negative, consume, consume_retries, packet_recv_all,
}

-- A count that `consume` accepts is positive and at most what remains; then that much less remains,
-- the other fields stay, and the caller is not told to try again.
pub consume_count :
    (n : ℕ) (h h' : Header) (s s' : Socket) (again : Bool)
    → consume (count n) h s ≡ ok (again, h', s')
    → (again ≡ false)
      × (0 < n)
      × (n ≤ h.content_length)
      × (h' ≡ record h { content_length = h.content_length - n })
unfolding consume
consume_count n h h' s s' again e = ground arith

-- An error of the caller's `read` is passed on as "try again" for EINTR and EAGAIN with nothing
-- changed, and raises `logic_error` for every other.
pub consume_negative :
    (e : Errno) (h : Header) (s : Socket)
    → consume (negative e) h s
      ≡ (if consume_retries e then ok (true, h, s) else stop (thrown logic_error))
unfolding consume
consume_negative e h s = refl

abbrev read_some : List ℕ → Header → List ℕ × Socket → Result (List ℕ × Header × Socket)
read_some buffer h (bytes, s1) =
    consume (count (length buffer)) h s1 >>= λ (again, h', s2). ok (bytes, h', s2)

packet_recv_all_some :
    (buffer bytes : List ℕ) (h h' : Header) (s s' : Socket)
    → 0 < length buffer
    → packet_recv_all buffer h s ≡ ok (bytes, h', s')
    → (length buffer ≤ remaining h)
      × ((recv_all buffer s >>= read_some buffer h) ≡ ok (bytes, h', s'))
unfolding packet_recv_all
packet_recv_all_some buffer bytes h h' s s' pos e = ground arith

packet_recv_all_none :
    (buffer bytes : List ℕ) (h h' : Header) (s s' : Socket)
    → length buffer ≡ 0
    → packet_recv_all buffer h s ≡ ok (bytes, h', s')
    → (length buffer ≤ h.content_length)
      × (length bytes ≡ length buffer)
      × (h' ≡ record h { content_length = h.content_length - length buffer })
unfolding packet_recv_all
packet_recv_all_none buffer bytes h h' s s' z e = ground arith

-- A header that is read with the flag up holds eight bytes that the kernel returned.
pub read_packet-Received :
    (memory : Header) (s : Socket)
    → Ensures (read_packet memory s) (λ (h, t).
      t.socket_insane ≡ true
      → (chunks : List (List ℕ)) × (s.reads ≡ gots chunks ++ t.reads)
        × (length (concat chunks) ≡ 8))
unfolding read_packet
read_packet-Received memory s =
    let blank = header_bytes (record memory { content_length = 0 }) in
    Ensures->>= _ (recv_all blank s) _ (
      Ensures_map (recv_all blank s)
        (λ (bytes, t) r up.
          let (chunks, _, split, whole) = r.all_got up in
          (
            chunks,
            split,
            omega (
              arith,
              ap length whole,
              r.fits,
              length-header_bytes (record memory { content_length = 0 }),
            ),
          ))
        (recv_all-Ensures blank s))

-- Neither the padding nor `consume` takes the flag up.
skip_padding_sane :
    (h : Header) (s : Socket)
    → Ensures (skip_padding h s) (λ t. t.socket_insane ≡ true → s.socket_insane ≡ true)
unfolding skip_padding
skip_padding_sane h s = elim (Bool-cases (h.content_length == 0)) [
  | inr more ↦ rw more (λ up. up)
  | inl drained ↦ elim (Bool-cases (h.padding_length == 0)) [
    | inl bare ↦ rw (drained, bare) (λ up. up)
    | inr padded ↦
        rw (drained, padded)
          (let trash = replicate h.padding_length 0 in
            Ensures->>= _ (recv_all trash s) _ (
              Ensures_map (recv_all trash s) (λ (bytes, t) r up. r.was_sane up)
                (recv_all-Ensures trash s)))
  ]
]

consume_sane :
    (n : ℕ) (h : Header) (s : Socket)
    → Ensures
        (consume (count n) h s)
        (λ (again, h', t). t.socket_insane ≡ true → s.socket_insane ≡ true)
unfolding consume
consume_sane n h s = elim (Bool-cases (ltb (remaining h) n)) [
  | inl over ↦ rw over tt
  | inr within ↦ elim (Bool-cases (n == 0)) [
    | inl none ↦ rw (within, none) tt
    | inr some ↦
        rw (within, some)
          (let h' = record h { content_length = h.content_length - n } in
            Ensures->>= _ (skip_padding h' s) _
              (Ensures_map (skip_padding h' s) (λ t keeps up. keeps up) (skip_padding_sane h' s)))
  ]
]

-- With the flag up, the bytes are what the kernel returned.
abbrev pub IsRead : List ℕ → Socket → Socket → Type 0
IsRead bytes s s' =
    s'.socket_insane ≡ true
    → (chunks : List (List ℕ)) × (rest : List ReadResult) × (s.reads ≡ gots chunks ++ rest)
      × (bytes ≡ concat chunks)

none-IsRead :
    (buffer bytes : List ℕ) (h h' : Header) (s s' : Socket)
    → length buffer ≡ 0
    → packet_recv_all buffer h s ≡ ok (bytes, h', s')
    → IsRead bytes s s'
none-IsRead buffer bytes h h' s s' z e up = (
  [],
  s.reads,
  refl,
  empty bytes (omega (arith, (packet_recv_all_none buffer bytes h h' s s' z e).1, z)),
)
  where
    empty : (bytes : List ℕ) → length bytes ≡ 0 → bytes ≡ []
    empty [] e = refl
    empty (x ∷ xs) e = absurd (omega arith)

-- When `recv_all` of a packet returns, it asked for no more than the content of the packet, and the
-- content that remains is less by just the size of the buffer. The buffer then holds, where the flag
-- is up behind it, just the bytes that the calls of `read` returned, in their order. (With the flag
-- down it may hold what it held before, and still counts as consumed.)
pub packet_recv_all_bounds :
    (buffer bytes : List ℕ) (h h' : Header) (s s' : Socket)
    → packet_recv_all buffer h s ≡ ok (bytes, h', s')
    → (length buffer ≤ h.content_length)
      × (length bytes ≡ length buffer)
      × (h' ≡ record h { content_length = h.content_length - length buffer })
      × IsRead bytes s s'
packet_recv_all_bounds buffer bytes h h' s s' e = elim (Bool-cases (length buffer == 0)) [
  | inl none_asked ↦
      let z : length buffer ≡ 0 = ground arith in
      let (le, same, left) = packet_recv_all_none buffer bytes h h' s s' z e in
      (le, same, left, none-IsRead buffer bytes h h' s s' z e)
  | inr some_asked ↦
      let (le, received) = packet_recv_all_some buffer bytes h h' s s' (ground arith) e in
      let ((b, s1), er, consumed) = >>=-eq-ok (recv_all buffer s) (read_some buffer h) received in
      let ((again, h2, s2), ec, done) =
        >>=-eq-ok (consume (count (length buffer)) h s1) (λ (again, h', s2). ok (b, h', s2))
          consumed in
      let facts = consume_count (length buffer) h h2 s1 s2 again ec in
      let r = recv_all-Received buffer b s s1 er in
      let full : length b ≡ length buffer = r.fits in
      let keeps : s2.socket_insane ≡ true → s1.socket_insane ≡ true =
        Ensures_elim (λ (again, h', t). t.socket_insane ≡ true → s1.socket_insane ≡ true) ec
          (consume_sane (length buffer) h s1) in
      let read : IsRead b s s2 = λ up.
        let (chunks, _, split, whole) = r.all_got (keeps up) in (chunks, s1.reads, split, whole) in
      let (le2, same, left) : (length buffer ≤ h.content_length)
          × (length bytes ≡ length buffer)
          × (h' ≡ record h { content_length = h.content_length - length buffer }) =
        ground (arith, facts, full, done) in
      (le2, same, left, Ensures_elim (λ (bytes', h3, t). IsRead bytes' s t) done read)
]
