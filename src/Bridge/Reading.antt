-- ===== src/Bridge/Reading.antt =====
-- What `readAllPooled` of internal/proxy/websocket.go reads.
use mathlib.Core.List.{append_assoc}
use sticky_proxy.Prelude.{
  ℕ, zero, suc, ◌-◌, ◌≤◌, ◌<◌, ◌≡◌, refl, sym, ap, ◌∙◌, subst, Bool, true, false, Option, none,
  some, List, [], ◌++◌, length, length-append, ◌==◌, Bool-cases, inl, inr, arith,
}
use sticky_proxy.Bridge.{
  Buffer, Read, got, last, broken, bytes_of, grow, append, after_read, read_loop, read_all,
}

-- What a reader answers when it is offered at least one byte, with the bytes that it holds and the number
-- of reads that it may still take: never more bytes than offered, and each read comes closer to the end.
abbrev pub Answers :
    {S : Type 0} (content : S → List ℕ) (measure : S → ℕ) → S → ℕ → Read × S → Type 0
Answers content measure s space (got bs, s') =
    (length bs ≤ space) × (content s ≡ bs ++ content s') × (measure s' < measure s)
Answers content measure s space (last bs, s') = (length bs ≤ space) × (content s ≡ bs)
Answers content measure s space (broken bs, s') = length bs ≤ space

grow-fits :
    (b : Buffer)
    → length b.elements ≤ b.cap
    → ((grow b).elements ≡ b.elements) × (length (grow b).elements < (grow b).cap)
unfolding grow
grow-fits b le = elim (Bool-cases (length b.elements == b.cap)) [
  | inl e ↦ simp (e) (refl, ground arith)
  | inr e ↦ simp (e) (refl, ground arith)
]

module _ {S : Type 0} (read : S → ℕ → Read × S) (content : S → List ℕ) (measure : S → ℕ)
    (reads : (s : S) (space : ℕ) → 0 < space → Answers content measure s space (read s space)) where
  -- The loop ends; without an error the buffer holds what it held and all that the reader held.
  abbrev pub Ends : Option (Buffer × Bool) → List ℕ → Type 0
  Ends none bytes = ⊥
  Ends (some (b, true)) bytes = (b.elements ≡ bytes) × (length b.elements ≤ b.cap)
  Ends (some (b, false)) bytes = length b.elements ≤ b.cap

  after_read-Ends :
      (s : S) (b : Buffer) (r : Read × S) (rest : Option (Buffer × Bool))
      → length b.elements < b.cap
      → Answers content measure s (b.cap - length b.elements) r
      → (length (append b (bytes_of r.0)).elements ≤ b.cap
          → measure r.1 < measure s
          → Ends rest ((b.elements ++ bytes_of r.0) ++ content r.1))
      → Ends (after_read r.0 b rest) (b.elements ++ content s)
  unfolding after_read append
  after_read-Ends s b (got bs, s') rest fits a h =
      subst (Ends rest)
        (append_assoc b.elements bs (content s') ∙ ap (λ xs. b.elements ++ xs) (sym a.1))
        (h (omega (arith, a.0, length-append b.elements bs)) a.2)
  after_read-Ends s b (last bs, s') rest fits a h =
      (ap (λ xs. b.elements ++ xs) (sym a.1), omega (arith, a.0, length-append b.elements bs))
  after_read-Ends s b (broken bs, s') rest fits a h = omega (arith, a, length-append b.elements bs)

  read_loop-Ends :
      (fuel : ℕ) (b : Buffer) (s : S)
      → measure s < fuel
      → length b.elements ≤ b.cap
      → Ends (read_loop read fuel b s) (b.elements ++ content s)
  unfolding read_loop append
  read_loop-Ends zero b s lt le = absurd (omega arith)
  read_loop-Ends (suc fuel) b s lt le =
      let b' = grow b in
      let g = grow-fits b le in
      let r = read s (b'.cap - length b'.elements) in
      subst (λ xs. Ends (read_loop read (suc fuel) b s) (xs ++ content s)) g.0
        (after_read-Ends s b' r (read_loop read fuel (append b' (bytes_of r.0)) r.1) g.1
          (reads s (b'.cap - length b'.elements) (omega (arith, g.1)))
          (λ fits closer.
            read_loop-Ends fuel (append b' (bytes_of r.0)) r.1 (omega (arith, closer)) fits))

  -- Whatever the capacity of the pooled buffer, `readAllPooled` ends with every reader that, offered at
  -- least one byte, answers at most as many bytes as offered and comes closer to its end; without an
  -- error the buffer then holds exactly the bytes of the message, within its capacity.
  pub read_all-Ends :
      (fuel cap : ℕ) (s : S) → measure s < fuel → Ends (read_all read fuel cap s) (content s)
  unfolding read_all
  read_all-Ends fuel cap s lt =
      read_loop-Ends fuel (record { elements = []; cap = cap }) s lt (omega arith)
