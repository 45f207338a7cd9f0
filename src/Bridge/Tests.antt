-- ===== src/Bridge/Tests.antt =====
-- A reader that gives at most two bytes at a time, and a pump of numbers.
use sticky_proxy.Prelude.{
  ℕ, ◌<◌, ◌≡◌, refl, Bool, true, false, some, List, [], ◌∷◌, ◌++◌, length, ◌==◌, if◌then◌else◌,
  arith,
}
use sticky_proxy.Bridge.{
  Read, got, last, grow, append, after_read, read_loop, read_all, Pump, write_message, write_batch,
  pump, pump_all, stop_backend,
}
use sticky_proxy.Bridge.Reading.{Answers, Ends, read_all-Ends}
use sticky_proxy.Bridge.Writing.{IsInOrder, all_of, stop_backend-pump_all}

-- One byte at a time, then the end.
abbrev by_one : List ℕ → ℕ → Read × List ℕ
by_one [] space = (last [], [])
by_one (b ∷ bs) space = (got (b ∷ []), bs)

by_one_answers :
    (s : List ℕ) (space : ℕ) → 0 < space → Answers (λ xs. xs) length s space (by_one s space)
by_one_answers [] space lt = (omega arith, refl)
by_one_answers (b ∷ bs) space lt = (omega arith, refl, omega arith)

abbrev message : List ℕ
message = 104 ∷ 105 ∷ 33 ∷ []

read_all-Ends_example :
    Ends by_one (λ xs. xs) length by_one_answers (read_all by_one 4 0 message) message
read_all-Ends_example =
    read_all-Ends by_one (λ xs. xs) length by_one_answers 4 0 message (omega arith)

grown : read_all by_one 4 0 message ≡ some (record { elements = message; cap = 4096 }, true)
unfolding read_all read_loop grow append after_read
grown = refl

-- The write of 7 fails.
abbrev rounds : List (List ℕ)
rounds = (1 ∷ 2 ∷ []) ∷ (7 ∷ 8 ∷ []) ∷ (9 ∷ []) ∷ []

abbrev not_seven : ℕ → Bool
not_seven n = if n == 7 then false else true

abbrev pumped : Pump ℕ
pumped = record {
  queue = 9 ∷ [];
  done = record { written = 1 ∷ 2 ∷ []; released = 1 ∷ 2 ∷ 7 ∷ 8 ∷ []; failed = true };
}

pumps :
    pump_all not_seven
      (record { queue = []; done = record { written = []; released = []; failed = false } })
      rounds
    ≡ pumped
unfolding pump_all pump write_batch write_message
pumps = refl

stop_backend-pump_all_example :
    let p =
      pump_all not_seven
        (record { queue = []; done = record { written = []; released = []; failed = false } })
        rounds in
    (p.done.released ++ p.queue ≡ all_of not_seven rounds)
    × ((stop_backend p).done.released ≡ all_of not_seven rounds)
    × IsInOrder p.done
    × (p.done.failed ≡ false → all_of not_seven rounds ≡ p.done.written ++ p.queue)
stop_backend-pump_all_example = stop_backend-pump_all not_seven rounds
