-- ===== src/Webhooks/Counts.antt =====
-- What a run reports: the numbers of its successes and of its failures.
use safe4_arc_demo.Prelude.{ℕ, ◌+◌, ◌≡◌, length}
use safe4_arc_demo.Webhooks.{Run}

abbrev Accounted : ℕ → Run → Type 0
Accounted before run = length run.outboxes.attempts ≡ before + run.dispatched + run.failures
