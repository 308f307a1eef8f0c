-- ===== src/OStream/Append.antt =====
-- One text written behind another.
use tfcgi.Prelude.{◌≡◌, refl, ℕ, Bool-cases, inl, inr, List, [], ◌∷◌, ◌++◌}
use tfcgi.OStream.{OStreamBuf, OStream, Wire, sputc, sputn, write}

sputn-append :
    (xs ys : List ℕ) (b : OStreamBuf) (wire : Wire)
    → sputn (xs ++ ys) b wire ≡ sputn ys (sputn xs b wire).0 (sputn xs b wire).1
unfolding sputn
sputn-append [] ys b wire = refl
sputn-append (x ∷ xs) ys b wire = sputn-append xs ys (sputc x b wire).0 (sputc x b wire).1

pub write-append :
    (xs ys : List ℕ) (os : OStream) (wire : Wire)
    → write (xs ++ ys) os wire ≡ write ys (write xs os wire).0 (write xs os wire).1
unfolding write
write-append xs ys os wire = elim (Bool-cases os.attached) [
  | inl up ↦ rw (up, sputn-append xs ys os.internal wire) refl
  | inr down ↦ rw down refl
]

pub write-nil : (os : OStream) (wire : Wire) → write [] os wire ≡ (os, wire)
unfolding write sputn
write-nil os wire = elim (Bool-cases os.attached) [ inl up ↦ rw up refl | inr down ↦ rw down refl ]
