-- ===== src/Terminal/Buffer.antt =====
-- The output buffer of mbbsd/io.c, and everything that has been put out.
use openptt.Prelude.{
  ℕ, ◌+◌, ◌-◌, ◌<◌, ◌≤◌, ◌≡◌, refl, sym, true, [], ◌∷◌, ◌++◌, inl, inr, arith, ltb, length,
  length-append, Bool-cases, ◌==◌,
}
use mathlib.Core.List.{append_assoc, append-nil}
use openptt.Prelude.Bytes.{Bytes}
use openptt.Terminal.{Io, oflush, output, ochar}

-- Everything that has been put out so far.
abbrev pub stream : Io → Bytes
stream io = io.sent ++ io.outbuf

empty : (s : Bytes) → (length s == 0) ≡ true → s ≡ []
empty [] e = refl
empty (c ∷ s) e = absurd (ground arith)

-- output and ochar add their bytes to the stream, and keep the buffer within `size` if the bytes fit
-- into it at all; oflush leaves the stream and empties the buffer.
pub stream-output :
    (size c : ℕ) (s : Bytes) (io : Io)
    → length s ≤ size
    → 0 < size
    → length io.outbuf ≤ size
    → ((stream (output size s io) ≡ stream io ++ s) × (length (output size s io).outbuf ≤ size))
      × ((stream (ochar size c io) ≡ stream io ++ c ∷ [])
          × (length (ochar size c io).outbuf ≤ size))
      × ((stream (oflush io) ≡ stream io) × ((oflush io).outbuf ≡ []))
unfolding output ochar oflush
stream-output size c s io fits pos room = (
  elim (Bool-cases (ltb size (length io.outbuf + length s))) [
    | inl e ↦ rw (output, e) (refl, fits)
    | inr e ↦
        rw (output, e)
          (sym (append_assoc io.sent io.outbuf s), ground (arith, length-append {0} io.outbuf s))
  ],
  elim (Bool-cases (ltb (size - 1) (length io.outbuf))) [
    | inl e ↦ rw (ochar, e) (refl, pos)
    | inr e ↦
        rw (ochar, e)
          (
            sym (append_assoc io.sent io.outbuf (c ∷ [])),
            ground (arith, length-append {0} io.outbuf (c ∷ [])),
          )
  ],
  elim (Bool-cases (length io.outbuf == 0)) [
    | inl e ↦ rw (oflush, e) (refl, empty io.outbuf e)
    | inr e ↦ rw (oflush, e) (append-nil (io.sent ++ io.outbuf), refl)
  ],
)
