-- ===== src/RateLimiter.antt =====
-- app/main.py: `RateLimiter`, a sliding window of the times of the accepted requests for each key.
-- Times are whole ticks of the clock, of which `ticks` make a second.
pub mod Window
pub mod History
use safe4_arc_demo.Prelude.{
  ℕ, ◌+◌, ◌-◌, ◌*◌, ◌/◌, max, Option, none, some, Bool, true, false, List, [], ◌∷◌, ◌++◌, ltb, leb,
  if◌then◌else◌, length,
}
use safe4_arc_demo.Dict.{Dict, lookup, insert}

pub record Limiter : Type 0 where
  pub limit : ℕ
  -- `window_seconds`, in ticks
  pub window : ℕ
  pub ticks : ℕ

-- `index_error` is `window[0]` of an empty window, which a limit of zero reaches.
pub data Outcome : Type 0 where
  allowed : Outcome
  retry_after : ℕ → Outcome
  index_error : Outcome

-- The `while` loop: the events older than the window leave on the left.
unfoldable pub drop_expired : ℕ → ℕ → List ℕ → List ℕ
drop_expired span now [] = []
drop_expired span now (t ∷ ts) =
    let rest = drop_expired span now ts in if ltb span (now - t) then rest else t ∷ ts

-- `max(1, int(window_seconds - (now - window[0])))`
abbrev pub retry : Limiter → ℕ → List ℕ → Outcome
retry l now [] = index_error
retry l now (t ∷ _) = retry_after (max 1 ((l.window + t - now) / l.ticks))

-- `allow` on the window of one key.
unfoldable pub allow_window : Limiter → ℕ → List ℕ → Outcome × List ℕ
unfolding drop_expired
allow_window l now events =
    let kept = drop_expired l.window now events in
    if leb l.limit (length kept) then (retry l now kept, kept) else (allowed, kept ++ now ∷ [])

abbrev pub window_of : Option (List ℕ) → List ℕ
window_of none = []
window_of (some w) = w

unfoldable pub allow : Limiter → ℕ → ℕ → Dict (List ℕ) → Outcome × Dict (List ℕ)
unfolding allow_window
allow l now key events =
    let (outcome, kept) = allow_window l now (window_of (lookup key events)) in
    (outcome, insert key kept events)
