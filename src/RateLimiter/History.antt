-- ===== src/RateLimiter/History.antt =====
-- A sequence of calls for one key, with every request that was ever accepted.
use safe4_arc_demo.Prelude.{
  ℕ, ◌+◌, ◌-◌, ◌≤◌, ◌<◌, ◌≡◌, refl, sym, ap, ◌∙◌, List, [], ◌∷◌, ◌++◌, arith, leb, ltb, Bool-cases,
  inl, inr, if◌then◌else◌, length, length-append, count_if, count_if-append,
}
use mathlib.Core.List.{append_assoc}
use safe4_arc_demo.RateLimiter.{Limiter, drop_expired, allow_window}
use safe4_arc_demo.RateLimiter.Window.{live, accepted?, retried}

pub record Trace : Type 0 where
  pub now : ℕ
  -- the times of all accepted requests, the earliest first
  pub accepted : List ℕ
  pub window : List ℕ

unfoldable pub step : Limiter → ℕ → Trace → Trace
step l now s =
    let (outcome, window) = allow_window l now s.window in
    record {
      now = now;
      accepted = if accepted? outcome then s.accepted ++ now ∷ [] else s.accepted;
      window = window;
    }

unfoldable pub run : Limiter → List ℕ → Trace → Trace
unfolding step
run l [] s = s
run l (t ∷ ts) s = run l ts (step l t s)

-- The calls come in the order of the clock.
abbrev pub Rising : ℕ → List ℕ → Type 0
Rising t [] = Unit
Rising t (u ∷ us) = (t ≤ u) × Rising u us

abbrev Expired : ℕ → ℕ → List ℕ → Type 0
Expired span now [] = Unit
Expired span now (t ∷ ts) = (t + span < now) × Expired span now ts

Expired-later :
    (span now later : ℕ) (ts : List ℕ) → now ≤ later → Expired span now ts → Expired span later ts
Expired-later span now later [] h e = tt
Expired-later span now later (t ∷ ts) h e = (omega arith, Expired-later span now later ts h e.1)

Expired-append :
    (span now : ℕ) (ts us : List ℕ)
    → Expired span now ts
    → Expired span now us
    → Expired span now (ts ++ us)
Expired-append span now [] us e f = f
Expired-append span now (t ∷ ts) us e f = (e.0, Expired-append span now ts us e.1 f)

count-Expired : (span now : ℕ) (ts : List ℕ) → Expired span now ts → count_if (live span now) ts ≡ 0
count-Expired span now [] e = refl
count-Expired span now (t ∷ ts) e = ground (arith, count-Expired span now ts e.1)

count-le-length : (span now : ℕ) (ts : List ℕ) → count_if (live span now) ts ≤ length ts
count-le-length span now [] = omega arith
count-le-length span now (t ∷ ts) = ground (arith, count-le-length span now ts)

-- The events that one call drops.
dropped : ℕ → ℕ → List ℕ → List ℕ
dropped span now [] = []
dropped span now (t ∷ ts) =
    let rest = dropped span now ts in if ltb span (now - t) then t ∷ rest else []

dropped-split :
    (span now : ℕ) (ts : List ℕ)
    → (ts ≡ dropped span now ts ++ drop_expired span now ts)
      × Expired span now (dropped span now ts)
unfolding dropped drop_expired
dropped-split span now [] = (refl, tt)
dropped-split span now (t ∷ ts) =
    let ih = dropped-split span now ts in
    elim (Bool-cases (ltb span (now - t))) [
      | inl e ↦ rw e (ap (λ us. t ∷ us) ih.0, (ground arith, ih.1))
      | inr e ↦ rw e (refl, tt)
    ]

-- The accepted requests are some that no longer count and those of the window.
record IsWithin (l : Limiter) (s : Trace) : Type 0 where
  old : List ℕ
  split : s.accepted ≡ old ++ s.window
  expired : Expired l.window s.now old
  fits : length s.window ≤ l.limit

step-IsWithin :
    (l : Limiter) (now : ℕ) (s : Trace) → s.now ≤ now → IsWithin l s → IsWithin l (step l now s)
unfolding step allow_window
step-IsWithin l now s h w =
    let gone = dropped l.window now s.window in
    let kept = drop_expired l.window now s.window in
    let (parts, dead) = dropped-split l.window now s.window in
    let old' = w.old ++ gone in
    let expired' : Expired l.window now old' =
      Expired-append l.window now w.old gone (Expired-later l.window s.now now w.old h w.expired)
        dead in
    let split' : s.accepted ≡ old' ++ kept =
      w.split ∙ ap (λ us. w.old ++ us) parts ∙ sym (append_assoc w.old gone kept) in
    let shorter : length kept ≤ l.limit =
      omega (arith, w.fits, ap length parts, length-append gone kept) in
    elim (Bool-cases (leb l.limit (length kept))) [
      | inl full ↦ record {
        old = old';
        split = ground (arith, split', retried l now kept);
        expired = expired';
        fits = ground (arith, shorter);
      }
      | inr room ↦ record {
        old = old';
        split = ground (arith, ap (λ us. us ++ now ∷ []) split', append_assoc old' kept (now ∷ []));
        expired = expired';
        fits = ground (arith, length-append kept (now ∷ []));
      }
    ]

run-IsWithin :
    (l : Limiter) (ts : List ℕ) (s : Trace)
    → Rising s.now ts
    → IsWithin l s
    → IsWithin l (run l ts s)
unfolding run
run-IsWithin l [] s r w = w
run-IsWithin l (t ∷ ts) s r w =
    run-IsWithin l ts (step l t s) (unfold step in r.1) (step-IsWithin l t s r.0 w)

IsWithin-count :
    (l : Limiter) (s : Trace) → IsWithin l s → count_if (live l.window s.now) s.accepted ≤ l.limit
IsWithin-count l s w =
    rw (w.split, count_if-append)
      (omega (
        arith,
        count-Expired l.window s.now w.old w.expired,
        count-le-length l.window s.now s.window,
        w.fits,
      ))

-- After any calls in the order of the clock, from an empty window, no more than `limit` of the
-- requests that were ever accepted lie within the window's span of the last call.
pub run-le-limit :
    (l : Limiter) (start : ℕ) (calls : List ℕ)
    → Rising start calls
    → let s = run l calls (record { now = start; accepted = []; window = [] }) in
      count_if (live l.window s.now) s.accepted ≤ l.limit
run-le-limit l start calls r =
    let w =
      run-IsWithin l calls _ r
        (record { old = []; split = refl; expired = tt; fits = omega arith }) in
    IsWithin-count l _ w
