-- ===== src/Session/Bridge.antt =====
-- pkg/session/session.go: bridge and copyAndDone; cmd/outrelay-agent/main.go: its own bridge, on
-- io.Copy, with halfCloseWrite. One direction of a bridge is the list of what its reads return.
pub mod Copies
mod Tests
use outrelay_agent.Base.{
  ℕ, Bool, true, false, if◌then◌else◌, Option, none, some, List, [], ◌∷◌, ◌++◌,
}
use outrelay_agent.Session.Wrapper.{Wrapper}

-- A read: its bytes, whether it returns an error (also EOF), and whether the write of the bytes to
-- the other side succeeds.
pub record Round : Type 0 where
  pub bytes : List ℕ
  pub ends : Bool
  pub accepted : Bool

-- The chunks that are written, whether the other side is half-closed, and whether the copy is done.
pub record Copied : Type 0 where
  pub chunks : List (List ℕ)
  pub half_closed : Bool
  pub done : Bool

-- A write is made for a count above 0 only; `rest` is what follows the write.
write_chunk : List ℕ → Bool → Copied → Copied
write_chunk [] accepted rest = rest
write_chunk (b ∷ bs) true rest = record rest { chunks = (b ∷ bs) ∷ rest.chunks }
write_chunk (b ∷ bs) false rest = record { chunks = []; half_closed = false; done = true }

-- `can_half_close`: the destination has a method CloseWrite.
unfoldable pub copy_and_done : Bool → List Round → Copied
unfolding write_chunk
copy_and_done can_half_close [] = record { chunks = []; half_closed = false; done = false }
copy_and_done can_half_close (r ∷ rounds) =
    let more = copy_and_done can_half_close rounds in
    let rest =
      if r.ends then record { chunks = []; half_closed = can_half_close; done = true } else more in
    write_chunk r.bytes r.accepted rest

pub data Side : Type 0 where
  left right : Side

-- The sides that bridge closes, in order, once both directions are done; `none` while it waits.
unfoldable pub bridge : (from_left from_right : Copied) → Option (List Side)
bridge from_left from_right =
    if from_left.done then (if from_right.done then some (left ∷ right ∷ []) else none) else none

pub data HalfClose : Type 0 where
  closed_write closed_all : HalfClose

unfoldable pub half_close_write : Bool → HalfClose
half_close_write can_half_close = if can_half_close then closed_write else closed_all

-- One direction of the bridge of the agent's main: io.Copy is over or not, and the half-close is
-- made however it ended.
unfoldable pub copy_then_close : (over can_half_close : Bool) → Option HalfClose
unfolding half_close_write
copy_then_close over can_half_close = if over then some (half_close_write can_half_close) else none

-- ResumableStream.CloseWrite: the inner stream, and what it is asked to do.
unfoldable pub close_write : Bool → Wrapper → Option (ℕ × HalfClose)
unfolding half_close_write
close_write can_half_close r = elim r.inner [
  | none ↦ none
  | some st ↦ some (st, half_close_write can_half_close)
]
