-- ===== src/Bridge/Writing.antt =====
-- What becomes of the messages given to a pump (`wsWritePump` of internal/proxy/websocket.go).
use mathlib.Core.List.{append_assoc, append-nil}
use sticky_proxy.Prelude.{
  ◌≡◌, refl, sym, ap, ◌∙◌, Bool, true, false, not, List, [], ◌∷◌, ◌++◌, take, drop,
  take-append-drop, if◌then◌else◌, Bool-cases, inl, inr, arith,
}
use sticky_proxy.Bridge.{Written, Pump, write_message, write_batch, pump, pump_all, stop_backend}

module _ {M : Type 0} where
  -- The written messages are the first of the released ones, and all of them unless a write has failed.
  pub record IsInOrder (w : Written M) : Type 0 where
    pub rest : List M
    pub prefix : w.released ≡ w.written ++ rest
    pub all : w.failed ≡ false → rest ≡ []

  no_rest : (w : Written M) → IsInOrder w → w.failed ≡ false → w.released ≡ w.written
  no_rest w h e = h.prefix ∙ ap (λ xs. w.written ++ xs) (h.all e) ∙ append-nil w.written

  written_or_not :
      (ok : Bool) (w : Written M) (m : M)
      → IsInOrder w
      → w.failed ≡ false
      → IsInOrder (record {
        written = if ok then w.written ++ m ∷ [] else w.written;
        released = w.released ++ m ∷ [];
        failed = not ok;
      })
  written_or_not true w m h e = record {
    rest = [];
    prefix = ap (λ xs. xs ++ m ∷ []) (no_rest w h e) ∙ sym (append-nil (w.written ++ m ∷ []));
    all = λ f. refl;
  }
  written_or_not false w m h e = record {
    rest = m ∷ [];
    prefix = ap (λ xs. xs ++ m ∷ []) (no_rest w h e);
    all = λ f. absurd (ground arith);
  }

  write_message-IsInOrder :
      (ok : Bool) (w : Written M) (m : M) → IsInOrder w → IsInOrder (write_message ok w m)
  unfolding write_message
  write_message-IsInOrder ok w m h = elim (Bool-cases w.failed) [
    | inl e ↦ simp (e) (record {
      rest = h.rest ++ m ∷ [];
      prefix = ap (λ xs. xs ++ m ∷ []) h.prefix ∙ append_assoc w.written h.rest (m ∷ []);
      all = λ f. absurd (ground arith);
    })
    | inr e ↦ simp (e) (written_or_not ok w m h e)
  ]

  write_message-released :
      (ok : Bool) (w : Written M) (m : M) → (write_message ok w m).released ≡ w.released ++ m ∷ []
  unfolding write_message
  write_message-released ok w m = ground arith

  module _ (write : M → Bool) where
    write_batch-IsInOrder :
        (w : Written M) (ms : List M) → IsInOrder w → IsInOrder (write_batch write w ms)
    unfolding write_batch
    write_batch-IsInOrder w [] h = h
    write_batch-IsInOrder w (m ∷ ms) h =
        write_batch-IsInOrder (write_message (write m) w m) ms
          (write_message-IsInOrder (write m) w m h)

    write_batch-released :
        (w : Written M) (ms : List M) → (write_batch write w ms).released ≡ w.released ++ ms
    unfolding write_batch
    write_batch-released w [] = sym (append-nil w.released)
    write_batch-released w (m ∷ ms) =
        write_batch-released (write_message (write m) w m) ms
        ∙ ap (λ xs. xs ++ ms) (write_message-released (write m) w m)
        ∙ append_assoc w.released (m ∷ []) ms

    -- What has been released and what is queued, in order.
    abbrev pub given : Pump M → List M
    given p = p.done.released ++ p.queue

    pump-given : (p : Pump M) (arrived : List M) → given (pump write p arrived) ≡ given p ++ arrived
    unfolding pump
    pump-given p arrived = elim (Bool-cases p.done.failed) [
      | inl e ↦ simp (e) (sym (append_assoc p.done.released p.queue arrived))
      | inr e ↦ simp (e) (
          ap (λ xs. xs ++ drop 16 (p.queue ++ arrived))
            (write_batch-released p.done (take 16 (p.queue ++ arrived)))
          ∙ append_assoc p.done.released (take 16 (p.queue ++ arrived))
              (drop 16 (p.queue ++ arrived))
          ∙ ap (λ xs. p.done.released ++ xs) (take-append-drop 16 (p.queue ++ arrived))
          ∙ sym (append_assoc p.done.released p.queue arrived))
    ]

    pump-IsInOrder :
        (p : Pump M) (arrived : List M) → IsInOrder p.done → IsInOrder (pump write p arrived).done
    unfolding pump
    pump-IsInOrder p arrived h = elim (Bool-cases p.done.failed) [
      | inl e ↦ simp (e) h
      | inr e ↦ simp (e) (write_batch-IsInOrder p.done (take 16 (p.queue ++ arrived)) h)
    ]

    abbrev pub all_of : List (List M) → List M
    all_of [] = []
    all_of (a ∷ as') = a ++ all_of as'

    pump_all-given :
        (p : Pump M) (rounds : List (List M))
        → given (pump_all write p rounds) ≡ given p ++ all_of rounds
    unfolding pump_all
    pump_all-given p [] = sym (append-nil (given p))
    pump_all-given p (a ∷ as') =
        pump_all-given (pump write p a) as'
        ∙ ap (λ xs. xs ++ all_of as') (pump-given p a)
        ∙ append_assoc (given p) a (all_of as')

    pump_all-IsInOrder :
        (p : Pump M) (rounds : List (List M))
        → IsInOrder p.done
        → IsInOrder (pump_all write p rounds).done
    unfolding pump_all
    pump_all-IsInOrder p [] h = h
    pump_all-IsInOrder p (a ∷ as') h =
        pump_all-IsInOrder (pump write p a) as' (pump-IsInOrder p a h)

    -- However messages arrive, and whichever write fails: the messages given to a pump are those that it has
    -- released, in order, and then those that are queued; the written ones are the first of the released
    -- ones, and if no write has failed, nothing is missing but what is queued. Once the pump of the backend
    -- is stopped, each message given to it has been released exactly once, in order.
    pub stop_backend-pump_all :
        (rounds : List (List M))
        → let p =
            pump_all write
              (record { queue = []; done = record { written = []; released = []; failed = false } })
              rounds in
          (p.done.released ++ p.queue ≡ all_of rounds)
          × ((stop_backend p).done.released ≡ all_of rounds)
          × IsInOrder p.done
          × (p.done.failed ≡ false → all_of rounds ≡ p.done.written ++ p.queue)
    unfolding stop_backend
    stop_backend-pump_all rounds =
        let empty : Pump M = record {
          queue = [];
          done = record { written = []; released = []; failed = false };
        } in
        let p = pump_all write empty rounds in
        let g = pump_all-given empty rounds in
        let o =
          pump_all-IsInOrder empty rounds (record { rest = []; prefix = refl; all = λ e. refl }) in
        (g, g, o, λ e. sym g ∙ ap (λ xs. xs ++ p.queue) (no_rest p.done o e))
