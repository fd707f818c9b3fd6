-- ===== src/Intent.antt =====
-- app/core/intent.py: the task-bound intent evaluator. A set of texts is a list without repeats;
-- the sorting of the sets that a decision shows is left out, and so is the sentence of its reason,
-- which follows its code. The match score is the pair of its numerator and denominator.
pub mod Concepts
pub mod Decisions
use Prim.Native.String.{String}
use safe4_arc_demo.Prelude.{
  ℕ, ◌+◌, Option, none, some, Bool, true, false, List, [], ◌∷◌, ◌++◌, ltb, not, if◌then◌else◌, ◌&&◌,
  ◌||◌, length, keep, map,
}
use safe4_arc_demo.Text.{
  Text, codes, Unicode, strip, is_empty, normalize_text, find_tokens, ◌text_eq◌, has_text,
  join_dash,
}

-- A JSON value, as far as the evaluator looks at it.
pub data Json : Type 0 where
  null : Json
  text : Text → Json
  -- an array, with `none` for each element that is no text
  array : List (Option Text) → Json
  other : Json

-- The fields of `payment_intent`; `none` is a missing one.
pub record RawIntent : Type 0 where
  pub task : Option Json
  pub service_category : Option Json
  pub allowed_service_categories : Option Json
  pub purchase_purpose : Option Json
  pub task_id : Option Json

-- `context["payment_intent"]`: missing or null, not an object, or an object.
pub data PaymentIntent : Type 0 where
  missing : PaymentIntent
  not_an_object : PaymentIntent
  object : RawIntent → PaymentIntent

pub data ReasonCode : Type 0 where
  justification_too_weak legacy_justification_accepted intent_context_invalid : ReasonCode
  service_category_outside_task purchase_purpose_mismatch task_purchase_match : ReasonCode

pub data Mode : Type 0 where
  legacy_justification task_bound : Mode

pub record IntentDecision : Type 0 where
  pub allowed : Bool
  pub reason_code : ReasonCode
  pub task_id : Option Text
  pub task : Option Text
  pub purchase : Text
  pub service_category : Option Text
  pub allowed_categories : List Text
  pub matched_concepts : List Text
  pub task_concepts : List Text
  pub purchase_concepts : List Text
  pub match_score : ℕ × ℕ
  pub mode : Mode

abbrev stop_words : List Text
stop_words = map codes (
    "a" ∷ "an" ∷ "and" ∷ "at" ∷ "by" ∷ "for" ∷ "from" ∷ "in" ∷ "into" ∷ "of" ∷ "on" ∷ "or" ∷ "the"
    ∷ "to" ∷ "up" ∷ "using" ∷ "with" ∷ [])

-- `_CONCEPT_ALIASES`, by the concept that the words stand for.
abbrev concept_aliases : List (Text × List Text)
concept_aliases =
    (
      codes "research",
      map codes ("analysis" ∷ "analyze" ∷ "brief" ∷ "investigate" ∷ "report" ∷ "researching" ∷ []),
    )
    ∷ (codes "competitor", map codes ("competitive" ∷ "competitors" ∷ "rival" ∷ "rivals" ∷ []))
    ∷ (codes "pricing", map codes ("cost" ∷ "costs" ∷ "price" ∷ "prices" ∷ []))
    ∷ (
      codes "company-data",
      map codes ("company" ∷ "companies" ∷ "corporate" ∷ "data" ∷ "dataset" ∷ "business" ∷ []),
    )
    ∷ (codes "travel", map codes ("rail" ∷ "ticket" ∷ "train" ∷ "trip" ∷ []))
    ∷ []

unfoldable pub find_alias : Text → List (Text × List Text) → Text
find_alias token [] = token
find_alias token ((concept, words) ∷ rest) =
    if has_text token words then concept else find_alias token rest

-- `_CONCEPT_ALIASES.get(token, token)`
unfoldable pub alias : Text → Text
unfolding find_alias
alias token = find_alias token concept_aliases

-- `token in _STOP_WORDS or len(token) < 3`
unfoldable pub is_skipped : Text → Bool
is_skipped token = has_text token stop_words || ltb (length token) 3

-- `concepts.add`
abbrev pub add_text : Text → List Text → List Text
add_text t ts = if has_text t ts then ts else t ∷ ts

unfoldable pub concepts_of : List Text → List Text
unfolding alias is_skipped
concepts_of [] = []
concepts_of (token ∷ rest) =
    let found = concepts_of rest in if is_skipped token then found else add_text (alias token) found

-- `_concepts`
unfoldable pub concepts : Unicode → Text → List Text
unfolding concepts_of
concepts u value = concepts_of (find_tokens (normalize_text u value))

unfoldable pub normalize_category : Unicode → Text → Text
normalize_category u value = join_dash (find_tokens (normalize_text u value))

-- The loop of `_clean_string_list`; `none` is its early return.
unfoldable pub clean_items : Unicode → List (Option Text) → Option (List Text)
clean_items u [] = some []
clean_items u (none ∷ items) = none
clean_items u (some item ∷ items) =
    let category = normalize_category u item in
    if is_empty (strip u item) || is_empty category
    then none
    else elim (clean_items u items) [ none ↦ none | some rest ↦ some (add_text category rest) ]

unfoldable pub clean_string_list : Unicode → Option Json → Option (List Text)
unfolding clean_items
clean_string_list u (some (array [])) = none
clean_string_list u (some (array (i ∷ is'))) = clean_items u (i ∷ is')
clean_string_list u _ = none

-- `task_values & purchase_values`, and `|`
unfoldable pub intersect : List Text → List Text → List Text
intersect xs ys = keep (λ x. has_text x ys) xs

unfoldable pub union : List Text → List Text → List Text
union xs ys = xs ++ keep (λ y. not (has_text y xs)) ys

-- 1.0 for an allowed decision without concepts, else matched / all.
unfoldable pub score_of : Bool → List Text → List Text → ℕ × ℕ
score_of allowed matched [] = if allowed then (1, 1) else (0, 1)
score_of allowed matched (x ∷ xs) = (length matched, length (x ∷ xs))

unfoldable pub decision :
    Bool
    → ReasonCode
    → Text
    → Mode
    → Option Text
    → Option Text
    → Option Text
    → List Text
    → List Text
    → List Text
    → IntentDecision
decision allowed code purchase mode task_id task category categories task_values purchase_values =
    let matched = intersect task_values purchase_values in
    record {
      allowed = allowed;
      reason_code = code;
      task_id = task_id;
      task = task;
      purchase = purchase;
      service_category = category;
      allowed_categories = categories;
      matched_concepts = matched;
      task_concepts = task_values;
      purchase_concepts = purchase_values;
      match_score = score_of allowed matched (union task_values purchase_values);
      mode = mode;
    }

abbrev pub invalid : Text → Option Text → List Text → IntentDecision
invalid purchase task categories =
    decision false intent_context_invalid purchase task_bound none task none categories [] []

-- `isinstance(value, str) and value.strip()`
unfoldable pub filled_text : Unicode → Option Json → Option Text
filled_text u (some (text t)) = if is_empty (strip u t) then none else some t
filled_text u _ = none

-- `raw_intent.get("purchase_purpose", purchase)`
abbrev pub purpose_or : Text → Option Json → Option Json
purpose_or purchase none = some (text purchase)
purpose_or purchase (some j) = some j

-- The optional task id: `some none` is one that was not given, `none` an invalid one.
unfoldable pub read_task_id : Unicode → Option Json → Option (Option Text)
read_task_id u none = some none
read_task_id u (some null) = some none
read_task_id u (some j) = elim (filled_text u (some j)) [
  | none ↦ none
  | some t ↦ some (some (strip u t))
]

-- From the two tests on the categories and the concepts.
unfoldable pub match_task :
    Unicode → Text → Option Text → Text → Text → List Text → Text → IntentDecision
match_task u purchase task_id task category_raw categories purpose =
    let category = normalize_category u category_raw in
    let task_values = concepts u task in
    let purchase_values = concepts u (purchase ++ (32 ∷ purpose)) in
    let decide = λ (allowed : Bool) (code : ReasonCode).
      decision allowed code purchase task_bound task_id (some (strip u task)) (some category)
        categories task_values purchase_values in
    if not (has_text category categories)
    then decide false service_category_outside_task
    else if ltb (length (intersect task_values purchase_values)) 2
    then decide false purchase_purpose_mismatch
    else decide true task_purchase_match

-- The validation of `payment_intent`, test by test.
unfoldable pub evaluate_object : Unicode → Text → RawIntent → IntentDecision
evaluate_object u purchase raw = elim (filled_text u raw.task) [
  | none ↦ invalid purchase none []
  | some task ↦ elim (filled_text u raw.service_category) [
    | none ↦ invalid purchase (some (strip u task)) []
    | some category ↦ elim (clean_string_list u raw.allowed_service_categories) [
      | none ↦ invalid purchase (some (strip u task)) []
      | some categories ↦ elim (filled_text u (purpose_or purchase raw.purchase_purpose)) [
        | none ↦ invalid purchase (some (strip u task)) categories
        | some purpose ↦ elim (read_task_id u raw.task_id) [
          | none ↦ invalid purchase (some (strip u task)) categories
          | some task_id ↦ match_task u purchase task_id task category categories purpose
        ]
      ]
    ]
  ]
]

unfoldable pub evaluate_payment_intent : Unicode → Text → PaymentIntent → ℕ → IntentDecision
evaluate_payment_intent u description missing minimum_words =
    let purchase = strip u description in
    if ltb (length (find_tokens (normalize_text u purchase))) minimum_words
    then decision false justification_too_weak purchase legacy_justification none none none [] [] []
    else decision true legacy_justification_accepted purchase legacy_justification none none none []
        [] []
evaluate_payment_intent u description not_an_object minimum_words =
    invalid (strip u description) none []
evaluate_payment_intent u description (object raw) minimum_words =
    evaluate_object u (strip u description) raw
