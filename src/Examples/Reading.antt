-- ===== src/Examples/Reading.antt =====
-- The loop that reads a stream, which three of the examples have: examples/server/simple/main.rs,
-- examples/server/tcp-server/main.rs and examples/exec-config/sockets/main.rs.
use toy_io.Common.{
  ℕ, ◌≡◌, sym, ◌∙◌, Bool, true, false, List, [], ◌∷◌, ◌++◌, append_assoc, append-nil,
}

-- What the reads of a stream give, up to the one that ends the loop: `Ok(n)` with `n` bytes, at
-- least one, `Ok(0)`, or an error, which may be `WouldBlock`.
pub data Reads : Type 0 where
  read : ℕ → List ℕ → Reads → Reads
  closed : Reads
  failed : Bool → Reads

-- The loop: an error is logged if it is not `WouldBlock`, and ends the loop like `Ok(0)`.
unfoldable pub read_all : Reads → List ℕ → List ℕ
read_all (read byte bytes rest) received = read_all rest (received ++ byte ∷ bytes)
read_all closed received = received
read_all (failed _) received = received

-- Pieces of a message, none of them empty, and what follows the last one.
unfoldable pub arrive : List (ℕ × List ℕ) → Reads → Reads
arrive [] last = last
arrive ((byte, bytes) ∷ pieces) last = read byte bytes (arrive pieces last)

-- The message of the pieces.
unfoldable pub joined : List (ℕ × List ℕ) → List ℕ
joined [] = []
joined ((byte, bytes) ∷ pieces) = (byte ∷ bytes) ++ joined pieces

-- The reads that end a stream.
unfoldable pub ending : Bool → Bool → Reads
ending true would_block = failed would_block
ending false _ = closed

-- The loop gives back the message that was sent, in whatever pieces it arrives, and whether the
-- stream then ends, has nothing more for now, or fails.
pub read_all-arrive :
    (pieces : List (ℕ × List ℕ)) (fails would_block : Bool) (received : List ℕ)
    → read_all (arrive pieces (ending fails would_block)) received ≡ received ++ joined pieces
unfolding read_all arrive joined ending
read_all-arrive [] true would_block received = sym (append-nil received)
read_all-arrive [] false would_block received = sym (append-nil received)
read_all-arrive ((byte, bytes) ∷ pieces) fails would_block received =
    read_all-arrive pieces fails would_block (received ++ byte ∷ bytes)
    ∙ append_assoc received (byte ∷ bytes) (joined pieces)
