-- ===== src/Protocol/Varint/Reads.antt =====
-- What a reader of protocol/compact.go takes of any input: it ends, and a success leaves a shorter
-- rest where it read a byte at least.
use line_go.Common.{ℕ, ◌+◌, ◌*◌, ◌%◌, ◌^◌, ◌≤◌, arith, List, [], ◌∷◌}
use line_go.Common.{length, length-drop, ltb, leb, Bool-cases, inl, inr}
use line_go.Protocol.Outcome.{Outcome, Ensures, holds, fails, Ensures-if, Ensures-bind}
use line_go.Protocol.Outcome.{Ensures-guard, Ensures-weaken, invalid_length}
use line_go.Protocol.Varint.{read_take, read_byte, varint_loop, read_varint, read_signed}
use line_go.Protocol.Varint.{read_binary}

-- The reader ends on `bytes`, and leaves a rest that is shorter by `n` at least.
abbrev pub Takes : {A : Type 0} → ℕ → List ℕ → Outcome (A × List ℕ) → Type 0
Takes n bytes = Ensures (λ r. n + length r.1 ≤ length bytes)

pub read_take-Takes : (size : ℕ) (bytes : List ℕ) → Takes size bytes (read_take size bytes)
unfolding read_take
read_take-Takes size bytes = elim (Bool-cases (ltb (length bytes) size)) [
  | inl short ↦ rw short fails
  | inr enough ↦ rw enough (holds (ground (arith, length-drop size bytes)))
]

pub read_byte-Takes : (bytes : List ℕ) → Takes 1 bytes (read_byte bytes)
unfolding read_byte
read_byte-Takes [] = fails
read_byte-Takes (b ∷ rest) = holds (omega arith)

varint_loop-Takes :
    (bytes : List ℕ) (value shift : ℕ) → Takes 1 bytes (varint_loop bytes value shift)
unfolding varint_loop
varint_loop-Takes [] value shift = Ensures-if (leb shift 63) fails fails
varint_loop-Takes (b ∷ rest) value shift =
    Ensures-if (leb shift 63)
      (Ensures-if (ltb b 128) (holds (omega arith)) (
        Ensures-weaken (λ r h. omega arith)
          (varint_loop-Takes rest (value + b % 128 * 2 ^ shift % 2 ^ 64) (shift + 7))))
      fails

pub read_varint-Takes : (bytes : List ℕ) → Takes 1 bytes (read_varint bytes)
unfolding read_varint
read_varint-Takes bytes = varint_loop-Takes bytes 0 0

pub read_signed-Takes : (bytes : List ℕ) → Takes 1 bytes (read_signed bytes)
unfolding read_signed
read_signed-Takes bytes = Ensures-bind (read_varint-Takes bytes) (λ r h. holds h)

pub read_binary-Takes : (bytes : List ℕ) → Takes 1 bytes (read_binary bytes)
unfolding read_binary
read_binary-Takes bytes = Ensures-bind (read_varint-Takes bytes) λ (size, rest) h.
    Ensures-guard (leb size (length rest)) (invalid_length size)
      λ g. Ensures-weaken (λ r k. omega arith) (read_take-Takes size rest)
