-- ===== src/Session/Wrapper.antt =====
-- pkg/session/session.go: the replaceable inner stream of a ResumableStream, with the channel that
-- wakes parked readers and writers. Streams and channels are numbers; `closed` lists every close
-- of a channel, so that a second close, a panic in Go, would show as a repeated entry.
pub mod Channels
mod Tests
use outrelay_agent.Base.{
  ℕ, suc, ◌+◌, Bool, true, false, if◌then◌else◌, Option, none, some, List, [], ◌∷◌,
}

pub record Wrapper : Type 0 where
  pub inner : Option ℕ
  pub ready : Option ℕ
  pub abandoned : Bool
  pub next_chan : ℕ
  pub closed : List ℕ
  pub cancelled : List ℕ

-- The literal of wrapStream: a stream and a channel of its own.
unfoldable pub wrap : ℕ → Wrapper
wrap inner = record {
  inner = some inner;
  ready = some 0;
  abandoned = false;
  next_chan = 1;
  closed = [];
  cancelled = [];
}

unfoldable pub close_chan : Option ℕ → List ℕ → List ℕ
close_chan none closed = closed
close_chan (some c) closed = c ∷ closed

unfoldable pub mark_abandoned : Wrapper → Wrapper
unfolding close_chan
mark_abandoned r =
    if r.abandoned
    then r
    else record r { abandoned = true; ready = none; closed = close_chan r.ready r.closed }

unfoldable pub swap_inner : Wrapper → ℕ → Wrapper
unfolding close_chan
swap_inner r s = record r {
  inner = some s;
  ready = some r.next_chan;
  next_chan = suc r.next_chan;
  closed = close_chan r.ready r.closed;
  cancelled = close_chan r.inner r.cancelled;
}

pub data Op : Type 0 where
  swap : ℕ → Op
  abandon : Op

unfoldable pub step : Wrapper → Op → Wrapper
step r (swap s) = swap_inner r s
step r abandon = mark_abandoned r

unfoldable pub steps : Wrapper → List Op → Wrapper
steps r [] = r
steps r (o ∷ os) = steps (step r o) os
