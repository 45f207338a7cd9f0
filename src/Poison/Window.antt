-- ===== src/Poison/Window.antt =====
-- The sliding window: what the trimming loop leaves of an ordered list of moments.
use sticky_proxy.Prelude.{
  length, ℕ, ◌+◌, ◌≤◌, ◌≡◌, refl, List, [], ◌∷◌, ◌++◌, arith, ltb, if◌then◌else◌,
}
use sticky_proxy.Poison.{stale, trim}

-- The moments of the last `window` nanoseconds.
unfoldable pub recent : ℕ → ℕ → List ℕ → List ℕ
recent window now [] = []
recent window now (e ∷ es) =
    if ltb (e + window) now then recent window now es else e ∷ recent window now es

-- From `lo` upwards to at most `hi`.
abbrev pub Ordered : ℕ → ℕ → List ℕ → Type 0
Ordered lo hi [] = lo ≤ hi
Ordered lo hi (e ∷ es) = (lo ≤ e) × Ordered e hi es

pub Ordered-le : (lo hi : ℕ) (es : List ℕ) → Ordered lo hi es → lo ≤ hi
Ordered-le lo hi [] o = o
Ordered-le lo hi (e ∷ es) o = omega (arith, Ordered-le e hi es o.1)

pub Ordered-append :
    (lo hi now : ℕ) (es : List ℕ) → Ordered lo hi es → hi ≤ now → Ordered lo now (es ++ now ∷ [])
Ordered-append lo hi now [] o h = omega arith
Ordered-append lo hi now (e ∷ es) o h = (o.0, Ordered-append e hi now es o.1 h)

pub Ordered-mono :
    (lo lo' hi hi' : ℕ) (es : List ℕ) → Ordered lo hi es → lo' ≤ lo → hi ≤ hi' → Ordered lo' hi' es
Ordered-mono lo lo' hi hi' [] o p q = omega arith
Ordered-mono lo lo' hi hi' (e ∷ es) o p q =
    (omega arith, Ordered-mono e e hi hi' es o.1 (omega arith) q)

recent_all :
    (window now lo hi : ℕ) (es : List ℕ)
    → Ordered lo hi es
    → now ≤ lo + window
    → recent window now es ≡ es
unfolding recent
recent_all window now lo hi [] o h = refl
recent_all window now lo hi (e ∷ es) o h = ground (arith, recent_all window now e hi es)

-- On an ordered list the loop keeps exactly the recent moments.
pub trim-recent :
    (window now lo hi : ℕ) (es : List ℕ)
    → Ordered lo hi es
    → trim window now es ≡ recent window now es
unfolding trim stale recent
trim-recent window now lo hi [] o = refl
trim-recent window now lo hi (e ∷ es) o =
    ground (arith, trim-recent window now e hi es, recent_all window now e hi es)

pub recent-Ordered :
    (window now lo hi : ℕ) (es : List ℕ) → Ordered lo hi es → Ordered lo hi (recent window now es)
unfolding recent
recent-Ordered window now lo hi [] o = o
recent-Ordered window now lo hi (e ∷ es) o =
    ground
      (arith, recent-Ordered window now e hi es, Ordered-mono e lo hi hi (recent window now es))

-- What has left the window stays out of it.
pub recent_later :
    (window now later : ℕ) (es : List ℕ)
    → now ≤ later
    → recent window later (recent window now es) ≡ recent window later es
unfolding recent
recent_later window now later [] h = refl
recent_later window now later (e ∷ es) h = ground (arith, recent_later window now later es)

pub recent-append :
    (window now : ℕ) (es fs : List ℕ)
    → recent window now (es ++ fs) ≡ recent window now es ++ recent window now fs
unfolding recent
recent-append window now [] fs = refl
recent-append window now (e ∷ es) fs = ground (arith, recent-append window now es fs)

pub length-recent-le : (window now : ℕ) (es : List ℕ) → length (recent window now es) ≤ length es
unfolding recent
length-recent-le window now [] = omega arith
length-recent-le window now (e ∷ es) = ground (arith, length-recent-le window now es)
