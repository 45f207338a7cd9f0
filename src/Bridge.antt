-- ===== src/Bridge.antt =====
-- internal/proxy/websocket.go: reading a message into a pooled buffer, and the goroutine that writes the
-- queued messages in batches. The connections are arguments; the select loop of a bridge and its swaps
-- are not modelled.
pub mod Reading
pub mod Writing
mod Tests
use sticky_proxy.Prelude.{
  ℕ, zero, suc, ◌+◌, ◌-◌, ◌*◌, Bool, true, false, not, ◌&&◌, Option, none, some, List, [], ◌∷◌,
  ◌++◌, length, take, drop, ◌==◌, if◌then◌else◌,
}

-- A slice: its elements and its capacity.
pub record Buffer : Type 0 where
  pub elements : List ℕ
  pub cap : ℕ

-- What `Read` answers: some bytes, the last ones with `io.EOF`, or some with another error.
pub data Read : Type 0 where
  got last broken : List ℕ → Read

abbrev pub bytes_of : Read → List ℕ
bytes_of (got bs) = bs
bytes_of (last bs) = bs
bytes_of (broken bs) = bs

-- A full buffer is copied to a larger one.
unfoldable pub grow : Buffer → Buffer
grow b = if length b.elements == b.cap then record b { cap = b.cap * 2 + 4096 } else b

unfoldable pub append : Buffer → List ℕ → Buffer
append b bs = record b { elements = b.elements ++ bs }

-- The buffer and whether there was no error, given those of the rest of the loop.
unfoldable pub after_read : Read → Buffer → Option (Buffer × Bool) → Option (Buffer × Bool)
unfolding append
after_read (got bs) b rest = rest
after_read (last bs) b rest = some (append b bs, true)
after_read (broken bs) b rest = some (append b bs, false)

module _ {S : Type 0} (read : S → ℕ → Read × S) where
  -- The loop of `readAllPooled`, on fuel; the reader is offered the free part of the buffer.
  unfoldable pub read_loop : ℕ → Buffer → S → Option (Buffer × Bool)
  unfolding grow append after_read
  read_loop zero b s = none
  read_loop (suc fuel) b s =
      let b' = grow b in
      let (r, s') = read s (b'.cap - length b'.elements) in
      let rest = read_loop fuel (append b' (bytes_of r)) s' in after_read r b' rest

  -- `readAllPooled`, into a buffer of some capacity
  unfoldable pub read_all : ℕ → ℕ → S → Option (Buffer × Bool)
  unfolding read_loop
  read_all fuel cap s = read_loop fuel (record { elements = []; cap = cap }) s

-- The written messages, the released ones, and whether a write has failed.
pub record Written (M : Type 0) : Type 0 where
  pub written : List M
  pub released : List M
  pub failed : Bool

-- A pump: the queued messages and what has been done with the earlier ones.
pub record Pump (M : Type 0) : Type 0 where
  pub queue : List M
  pub done : Written M

module _ {M : Type 0} where
  -- One message of a batch: `write` says whether the next write succeeds.
  unfoldable pub write_message : Bool → Written M → M → Written M
  write_message ok w m =
      if w.failed then record w { released = w.released ++ m ∷ [] } else (record {
        written = if ok then w.written ++ m ∷ [] else w.written;
        released = w.released ++ m ∷ [];
        failed = not ok;
      })

  module _ (write : M → Bool) where
    unfoldable pub write_batch : Written M → List M → Written M
    unfolding write_message
    write_batch w [] = w
    write_batch w (m ∷ ms) = write_batch (write_message (write m) w m) ms

    -- A round of `wsWritePump` after some messages have arrived: up to 16 are taken. It has returned once a
    -- write has failed.
    unfoldable pub pump : Pump M → List M → Pump M
    unfolding write_batch
    pump p arrived =
        let queue = p.queue ++ arrived in
        if p.done.failed
        then record p { queue = queue }
        else (record { queue = drop 16 queue; done = write_batch p.done (take 16 queue) })

    unfoldable pub pump_all : Pump M → List (List M) → Pump M
    unfolding pump
    pump_all p [] = p
    pump_all p (a ∷ as') = pump_all (pump p a) as'

  -- `stopBackendWritePump`: `msg.release()` for what is left when the pump of the backend is stopped.
  -- The pump of the client ends without it.
  unfoldable pub stop_backend : Pump M → Pump M
  stop_backend p = record {
    queue = [];
    done = record {
      written = p.done.written;
      released = p.done.released ++ p.queue;
      failed = p.done.failed;
    };
  }
