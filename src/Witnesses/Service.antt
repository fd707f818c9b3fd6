-- ===== src/Witnesses/Service.antt =====
-- The theorems on the limiter and the intent evaluator at small inputs.
use safe4_arc_demo.Prelude.{◌≤◌, ◌≡◌, refl, none, some, true, [], ◌∷◌, arith, ◌==◌, ltb, count_if}
use safe4_arc_demo.RateLimiter.{Limiter, allow_window}
use safe4_arc_demo.RateLimiter.Window.{live, accepted?, allow_window-exact}
use safe4_arc_demo.RateLimiter.History.{run, run-le-limit}
use safe4_arc_demo.Text.{
  codes, Unicode, strip, normalize_text, ascii_lower, to_lower, drop_while, drop_while_end,
  is_token_char, tokens_from, find_tokens, ◌text_eq◌, has_text, join_dash,
}
use safe4_arc_demo.Intent.{
  text, array, RawIntent, object, concepts, concepts_of, alias, is_skipped, normalize_category,
  clean_string_list, clean_items, find_alias, intersect, decision, filled_text, read_task_id,
  match_task, evaluate_object, evaluate_payment_intent,
}
use safe4_arc_demo.Intent.Decisions.{Matches, allowed-Matches, Matches-allowed, copied_task-allowed}

abbrev two_per_minute : Limiter
two_per_minute = record { limit = 2; window = 60; ticks = 1 }

run-le-limit_example :
    let s =
      run two_per_minute (3 ∷ 10 ∷ 20 ∷ 80 ∷ []) (record { now = 0; accepted = []; window = [] }) in
    count_if (live two_per_minute.window s.now) s.accepted ≤ two_per_minute.limit
run-le-limit_example = run-le-limit two_per_minute 0 (3 ∷ 10 ∷ 20 ∷ 80 ∷ []) (ground arith)

allow_window-exact_example :
    accepted? (allow_window two_per_minute 70 (3 ∷ 20 ∷ [])).0
    ≡ ltb (count_if (live two_per_minute.window 70) (3 ∷ 20 ∷ [])) two_per_minute.limit
allow_window-exact_example = allow_window-exact two_per_minute 0 70 (3 ∷ 20 ∷ []) (ground arith)

-- On ASCII texts the decomposition is the identity.
abbrev ascii : Unicode
ascii = record { nfkd = λ t. t; is_space = λ c. c == 32 }

abbrev research_intent : RawIntent
research_intent = record {
  task = some (text (codes "Research rival pricing"));
  service_category = some (text (codes "Market Data"));
  allowed_service_categories = some (array (some (codes "market data") ∷ []));
  purchase_purpose = some (text (codes "Research rival pricing"));
  task_id = none;
}

research-allowed :
    (evaluate_payment_intent ascii (codes "price report") (object research_intent) 2).allowed ≡ true
unfolding evaluate_payment_intent evaluate_object match_task decision filled_text read_task_id
    clean_string_list clean_items normalize_category concepts concepts_of alias find_alias
    is_skipped intersect has_text ◌text_eq◌ normalize_text ascii_lower to_lower strip drop_while
    drop_while_end find_tokens tokens_from is_token_char join_dash
research-allowed = refl

allowed-Matches_example : Matches ascii (strip ascii (codes "price report")) research_intent
allowed-Matches_example =
    allowed-Matches ascii (codes "price report") research_intent 2 research-allowed

Matches-allowed_example :
    (evaluate_payment_intent ascii (codes "price report") (object research_intent) 2).allowed ≡ true
Matches-allowed_example =
    Matches-allowed ascii (codes "price report") research_intent 2 allowed-Matches_example

copied_task-allowed_example :
    (evaluate_payment_intent ascii (codes "a boat") (object research_intent) 2).allowed ≡ true
unfolding read_task_id filled_text clean_string_list clean_items normalize_category concepts
    concepts_of alias find_alias is_skipped has_text ◌text_eq◌ normalize_text ascii_lower to_lower
    strip drop_while drop_while_end find_tokens tokens_from is_token_char join_dash
copied_task-allowed_example =
    copied_task-allowed ascii (λ c h. ground arith) (λ a b. refl) (codes "a boat")
      (codes "Research rival pricing") (codes "Market Data") (codes "market-data" ∷ [])
      research_intent none 2 refl refl refl refl refl refl (omega arith)
