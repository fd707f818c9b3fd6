-- ===== src/RateLimiter/Window.antt =====
-- One call on one window: which requests it lets through, and what it keeps.
use safe4_arc_demo.Prelude.{
  ℕ, ◌+◌, ◌≤◌, ◌≡◌, refl, ◌∙◌, Bool, true, false, List, [], ◌∷◌, arith, ltb, leb, length, count_if,
  ◌==◌,
}
use safe4_arc_demo.Dict.{Dict, lookup, lookup-insert}
use safe4_arc_demo.RateLimiter.{
  Limiter, Outcome, allowed, drop_expired, retry, allow_window, window_of, allow,
}

-- The times stand in order, the first not before `low` and the last not after `now`.
abbrev pub Between : ℕ → ℕ → List ℕ → Type 0
Between low now [] = Unit
Between low now (t ∷ ts) = (low ≤ t) × (t ≤ now) × Between t now ts

-- An accepted request still counts at `now`.
abbrev pub live : ℕ → ℕ → ℕ → Bool
live span now t = leb now (t + span)

abbrev pub accepted? : Outcome → Bool
accepted? allowed = true
accepted? _ = false

count_live-all :
    (span low now : ℕ) (ts : List ℕ)
    → Between low now ts
    → now ≤ low + span
    → count_if (live span now) ts ≡ length ts
count_live-all span low now [] b h = refl
count_live-all span low now (t ∷ ts) b h = ground (arith, count_live-all span t now ts b.2)

-- On times in order the loop keeps as many as still count.
pub length-drop_expired :
    (span low now : ℕ) (ts : List ℕ)
    → Between low now ts
    → length (drop_expired span now ts) ≡ count_if (live span now) ts
unfolding drop_expired
length-drop_expired span low now [] b = refl
length-drop_expired span low now (t ∷ ts) b =
    ground (arith, length-drop_expired span t now ts b.2, count_live-all span t now ts b.2)

pub retried : (l : Limiter) (now : ℕ) (ts : List ℕ) → accepted? (retry l now ts) ≡ false
retried l now [] = refl
retried l now (t ∷ ts) = refl

-- On a window in order, a request is accepted exactly if fewer than `limit` of the accepted ones
-- lie within the window's span of it.
pub allow_window-exact :
    (l : Limiter) (low now : ℕ) (events : List ℕ)
    → Between low now events
    → accepted? (allow_window l now events).0 ≡ ltb (count_if (live l.window now) events) l.limit
unfolding allow_window
allow_window-exact l low now events b = ground (
  arith,
  retried l now (drop_expired l.window now events),
  length-drop_expired l.window low now events b,
)

-- A call for one key leaves the windows of all other keys alone.
pub allow-frame :
    (l : Limiter) (now k j : ℕ) (events : Dict (List ℕ))
    → (k == j) ≡ false
    → lookup j (allow l now k events).1 ≡ lookup j events
unfolding allow
allow-frame l now k j events h =
    lookup-insert k j (allow_window l now (window_of (lookup k events))).1 events ∙ rw h
