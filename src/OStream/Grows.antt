-- ===== src/OStream/Grows.antt =====
-- Nothing that has gone out is taken back.
use tfcgi.Prelude.{
  ℕ, ◌≡◌, refl, sym, ap, ◌∙◌, false, Bool-cases, inl, inr, List, [], ◌∷◌, ◌++◌, append_assoc,
  append-nil, ◌==◌, ltb, length,
}
use tfcgi.OStream.{
  Wire, data_size, OStreamBuf, OStream, sync, overflow, sputc, sputn, end_stream, destroy_buf,
  write, close, packet_bytes,
}

-- What goes out comes behind what had gone out.
abbrev pub Extends : Wire → Wire → Type 0
Extends before after = (more : Wire) × (after ≡ before ++ more)

pub Extends-refl : (w : Wire) → Extends w w
Extends-refl w = ([], sym (append-nil w))

pub Extends-trans : (u v w : Wire) → Extends u v → Extends v w → Extends u w
Extends-trans u v w (a, e) (b, f) = (a ++ b, f ∙ ap (λ (x : Wire). x ++ b) e ∙ append_assoc u a b)

pub sync-Extends : (b : OStreamBuf) (wire : Wire) → Extends wire (sync b wire).1
unfolding sync
sync-Extends b wire = elim (Bool-cases (length b.buffer == 0)) [
  | inl idle ↦ rw idle (Extends-refl wire)
  | inr busy ↦ rw busy (packet_bytes b.header b.buffer ∷ [], refl)
]

sputc-Extends : (c : ℕ) (b : OStreamBuf) (wire : Wire) → Extends wire (sputc c b wire).1
unfolding sputc overflow
sputc-Extends c b wire = elim (Bool-cases (ltb (length b.buffer) data_size)) [
  | inl fits ↦ rw fits (Extends-refl wire)
  | inr full ↦ rw full (sync-Extends b wire)
]

sputn-Extends : (cs : List ℕ) (b : OStreamBuf) (wire : Wire) → Extends wire (sputn cs b wire).1
unfolding sputn
sputn-Extends [] b wire = Extends-refl wire
sputn-Extends (c ∷ cs) b wire =
    let (b', wire') = sputc c b wire in
    Extends-trans wire wire' (sputn cs b' wire').1 (sputc-Extends c b wire)
      (sputn-Extends cs b' wire')

pub write-Extends : (cs : List ℕ) (os : OStream) (wire : Wire) → Extends wire (write cs os wire).1
unfolding write
write-Extends cs os wire = elim (Bool-cases os.attached) [
  | inl up ↦ rw up (sputn-Extends cs os.internal wire)
  | inr down ↦ rw down (Extends-refl wire)
]

destroy_buf-Extends : (b : OStreamBuf) (wire : Wire) → Extends wire (destroy_buf b wire)
unfolding destroy_buf
destroy_buf-Extends b wire =
    Extends-trans wire (sync b wire).1 _ (sync-Extends b wire)
      (last (sync b wire).0 (sync b wire).1)
  where
    last : (b' : OStreamBuf) (w : Wire) → Extends w (end_stream (b', w))
    last b' w = elim (Bool-cases b'.send_eof) [
      | inl due ↦ rw due (packet_bytes b'.header [] ∷ [], refl)
      | inr not_due ↦ rw not_due (Extends-refl w)
    ]

pub close-Extends : (os : OStream) (wire : Wire) → Extends wire (close os wire).1
unfolding close
close-Extends os wire = elim (Bool-cases os.attached) [
  | inl up ↦ rw up (
      Extends-trans wire (sync os.internal wire).1 _ (sync-Extends os.internal wire)
        (destroy_buf-Extends (sync os.internal wire).0 (sync os.internal wire).1))
  | inr down ↦ rw down (Extends-refl wire)
]

-- A stream that was closed is shut.
pub close_detached : (os : OStream) (wire : Wire) → (close os wire).0.attached ≡ false
unfolding close
close_detached os wire = elim (Bool-cases os.attached) [
  | inl up ↦ rw up refl
  | inr down ↦ rw down refl
]
