-- ===== src/Hooks/Attempts.antt =====
-- When a notification is delivered (`send` of internal/proxy/hooks.go).
use sticky_proxy.Prelude.{
  ℕ, zero, suc, ◌+◌, ◌<◌, ◌≡◌, ◌⊎◌, refl, sym, ap, subst, ◌∙◌, Bool-cases, inl, inr, Bool, true,
  false, Option, none, some, if◌then◌else◌, arith,
}
use sticky_proxy.Prelude.Int.{pos, negsuc}
use sticky_proxy.Hooks.{
  Attempt, cancelled, unmakeable, unanswered, answered, Error, is_success, error_of, transport,
  conclude, send_loop, attempts, send, sent, notify,
}

-- The backend has taken the notification.
abbrev pub taken : Attempt → Bool
taken cancelled = false
taken unmakeable = false
taken unanswered = false
taken (answered s) = is_success s

-- Another attempt follows.
abbrev pub retried : Attempt → Bool
retried cancelled = false
retried unmakeable = false
retried unanswered = true
retried (answered s) = if is_success s then false else true

conclude-retried :
    (a : Attempt) (rest : Option Error × ℕ)
    → retried a ≡ true
    → conclude a rest ≡ (rest.0, suc rest.1)
unfolding conclude
conclude-retried cancelled rest h = absurd (ground arith)
conclude-retried unmakeable rest h = absurd (ground arith)
conclude-retried unanswered rest h = refl
conclude-retried (answered s) rest h = ground arith

conclude-taken :
    (a : Attempt) (rest : Option Error × ℕ) → taken a ≡ true → conclude a rest ≡ (none, 1)
unfolding conclude
conclude-taken cancelled rest h = absurd (ground arith)
conclude-taken unmakeable rest h = absurd (ground arith)
conclude-taken unanswered rest h = absurd (ground arith)
conclude-taken (answered s) rest h = ground arith

plus_zero : (i : ℕ) → i + 0 ≡ i
plus_zero i = omega arith

plus_suc : (i j : ℕ) → i + suc j ≡ suc i + j
plus_suc i j = omega arith

send_loop-delivers :
    (attempt : ℕ → Attempt) (k left i : ℕ) (last : Option Error)
    → k < left
    → ((j : ℕ) → j < k → retried (attempt (i + j)) ≡ true)
    → taken (attempt (i + k)) ≡ true
    → send_loop attempt left i last ≡ (none, suc k)
unfolding send_loop
send_loop-delivers attempt k zero i last lt before now = absurd (omega arith)
send_loop-delivers attempt zero (suc left) i last lt before now =
    conclude-taken (attempt i) _ (subst (λ x. taken (attempt x) ≡ true) (plus_zero i) now)
send_loop-delivers attempt (suc k) (suc left) i last lt before now =
    let ih =
      send_loop-delivers attempt k left (suc i) (some (error_of (attempt i))) (omega arith)
        (λ j h.
          subst (λ x. retried (attempt x) ≡ true) (plus_suc i j) (before (suc j) (omega arith)))
        (subst (λ x. taken (attempt x) ≡ true) (plus_suc i k) now) in
    conclude-retried (attempt i) _
      (subst (λ x. retried (attempt x) ≡ true) (plus_zero i) (before 0 (omega arith)))
    ∙ ap (λ r. (r.0, suc r.1)) ih

-- The first attempts up to the one that is taken.
abbrev pub Delivered : (ℕ → Attempt) → ℕ → ℕ → ℕ → Type 0
Delivered attempt left i k =
    (k < left)
    × ((j : ℕ) → j < k → retried (attempt (i + j)) ≡ true)
    × (taken (attempt (i + k)) ≡ true)

-- An attempt is taken, or another follows, or the loop ends with an error.
conclude-cases :
    (a : Attempt) (rest : Option Error × ℕ)
    → (conclude a rest).0 ≡ none
    → (taken a ≡ true) ⊎ ((retried a ≡ true) × (rest.0 ≡ none))
unfolding conclude
conclude-cases cancelled rest h = absurd (ground arith)
conclude-cases unmakeable rest h = absurd (ground arith)
conclude-cases unanswered rest h = inr (refl, h)
conclude-cases (answered s) rest h = elim (Bool-cases (is_success s)) [
  | inl e ↦ inl e
  | inr e ↦ inr (rw e refl, (simp (e) at h))
]

-- The attempts before a later one, from this one on.
shifted :
    (attempt : ℕ → Attempt) (i k : ℕ)
    → retried (attempt i) ≡ true
    → ((j : ℕ) → j < k → retried (attempt (suc i + j)) ≡ true)
    → (j : ℕ) → j < suc k
    → retried (attempt (i + j)) ≡ true
shifted attempt i k here later zero lt =
    subst (λ x. retried (attempt x) ≡ true) (sym (plus_zero i)) here
shifted attempt i k here later (suc j) lt =
    subst (λ x. retried (attempt x) ≡ true) (sym (plus_suc i j)) (later j (omega arith))

send_loop-Delivered :
    (attempt : ℕ → Attempt) (left i : ℕ) (e : Error)
    → (send_loop attempt left i (some e)).0 ≡ none
    → (k : ℕ) × Delivered attempt left i k
unfolding send_loop
send_loop-Delivered attempt zero i e h = absurd (ground arith)
send_loop-Delivered attempt (suc left) i e h =
    elim (conclude-cases (attempt i) (send_loop attempt left (suc i) (some (error_of (attempt i))))
      h) [
        | inl now ↦ (
          0,
          (
            omega arith,
            (λ j lt. absurd (omega arith)),
            subst (λ x. taken (attempt x) ≡ true) (sym (plus_zero i)) now,
          ),
        )
        | inr later ↦
            let ih = send_loop-Delivered attempt left (suc i) (error_of (attempt i)) later.1 in
            (
              suc ih.0,
              (
                omega (arith, ih.1.0),
                shifted attempt i ih.0 later.0 ih.1.1,
                subst (λ x. taken (attempt x) ≡ true) (sym (plus_suc i ih.0)) ih.1.2,
              ),
            )
      ]

-- A notification with `n` retries counts as sent exactly when one of the first `n + 1` attempts gets an
-- answer with a status from 200 to 299, and each before it gets another status or no answer; as many
-- requests are sent as attempts were needed.
pub send-Delivered :
    (attempt : ℕ → Attempt) (n : ℕ)
    → ((k : ℕ) → Delivered attempt (suc n) 0 k → send (pos n) attempt ≡ (none, suc k))
      × ((send (pos n) attempt).0 ≡ none → (k : ℕ) × Delivered attempt (suc n) 0 k)
unfolding send attempts send_loop
send-Delivered attempt n = (
  λ k d. send_loop-delivers attempt k (suc n) 0 none d.0 d.1 d.2,
  λ h. send_loop-Delivered attempt (suc n) 0 transport h,
)

-- With a negative number of retries every notification counts as sent, and no request is made.
pub notify-negative :
    (attempt : ℕ → Attempt) (n : ℕ)
    → (notify (negsuc n) attempt ≡ sent) × ((send (negsuc n) attempt).1 ≡ 0)
unfolding notify send attempts send_loop
notify-negative attempt n = (refl, refl)
