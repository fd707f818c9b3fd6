-- ===== src/Intent/Decisions.antt =====
-- When the evaluator allows a payment.
use safe4_arc_demo.Prelude.{
  ℕ, ◌≤◌, ◌≡◌, Option, none, some, Bool, true, false, List, [], ◌∷◌, ◌++◌, arith, if◌then◌else◌,
  length, Option-cases, Option-branches, inl, inr,
}
use safe4_arc_demo.Text.{Text, Unicode, strip, has_text, is_token_char}
use safe4_arc_demo.Intent.{
  Json, text, RawIntent, PaymentIntent, missing, not_an_object, object, IntentDecision, concepts,
  normalize_category, clean_string_list, intersect, union, decision, invalid, score_of, filled_text,
  purpose_or, read_task_id, match_task, evaluate_object, evaluate_payment_intent, ReasonCode, Mode,
}
use safe4_arc_demo.Intent.Concepts.{length-intersect-union, intersect-Subset, concepts-join}

-- What the evaluator looks for in a `payment_intent`: every field is there and filled, the category
-- is one of the task's, and the task and the purchase share two concepts.
pub record Matches (u : Unicode) (purchase : Text) (raw : RawIntent) : Type 0 where
  pub task : Text
  pub category : Text
  pub categories : List Text
  pub purpose : Text
  pub task_id : Option Text
  pub has_task : filled_text u raw.task ≡ some task
  pub has_category : filled_text u raw.service_category ≡ some category
  pub has_categories : clean_string_list u raw.allowed_service_categories ≡ some categories
  pub has_purpose : filled_text u (purpose_or purchase raw.purchase_purpose) ≡ some purpose
  pub has_task_id : read_task_id u raw.task_id ≡ some task_id
  pub permitted : has_text (normalize_category u category) categories ≡ true
  pub related : 2 ≤ length (intersect (concepts u task) (concepts u (purchase ++ (32 ∷ purpose))))

match_task-allowed :
    (u : Unicode) (purchase : Text) (task_id : Option Text) (task category : Text)
    (categories : List Text) (purpose : Text)
    → (match_task u purchase task_id task category categories purpose).allowed ≡ true
    → (has_text (normalize_category u category) categories ≡ true)
      × (2 ≤ length (intersect (concepts u task) (concepts u (purchase ++ (32 ∷ purpose)))))
unfolding match_task decision
match_task-allowed u purchase task_id task category categories purpose h =
    (ground arith, ground arith)

match_task-allows :
    (u : Unicode) (purchase : Text) (task_id : Option Text) (task category : Text)
    (categories : List Text) (purpose : Text)
    → has_text (normalize_category u category) categories ≡ true
    → 2 ≤ length (intersect (concepts u task) (concepts u (purchase ++ (32 ∷ purpose))))
    → (match_task u purchase task_id task category categories purpose).allowed ≡ true
unfolding match_task decision
match_task-allows u purchase task_id task category categories purpose p r = ground arith

evaluate_object-allowed :
    (u : Unicode) (purchase : Text) (raw : RawIntent)
    → (evaluate_object u purchase raw).allowed ≡ true
    → Matches u purchase raw
unfolding evaluate_object decision
evaluate_object-allowed u purchase raw h = elim (Option-cases (filled_text u raw.task)) [
  | inl e ↦ absurd (ground arith)
  | inr (task, e₁) ↦ elim (Option-cases (filled_text u raw.service_category)) [
    | inl e ↦ absurd (ground arith)
    | inr (category, e₂) ↦
        elim (Option-cases (clean_string_list u raw.allowed_service_categories)) [
          | inl e ↦ absurd (ground arith)
          | inr (categories, e₃) ↦
              elim (Option-cases (filled_text u (purpose_or purchase raw.purchase_purpose))) [
                | inl e ↦ absurd (ground arith)
                | inr (purpose, e₄) ↦ elim (Option-cases (read_task_id u raw.task_id)) [
                  | inl e ↦ absurd (ground arith)
                  | inr (task_id, e₅) ↦
                      let (permitted, related) =
                        match_task-allowed u purchase task_id task category categories purpose
                          (ground arith) in
                      record {
                        task = task;
                        category = category;
                        categories = categories;
                        purpose = purpose;
                        task_id = task_id;
                        has_task = e₁;
                        has_category = e₂;
                        has_categories = e₃;
                        has_purpose = e₄;
                        has_task_id = e₅;
                        permitted = permitted;
                        related = related;
                      }
                ]
              ]
        ]
  ]
]

-- A request with a `payment_intent` object is allowed only if that object matches.
pub allowed-Matches :
    (u : Unicode) (description : Text) (raw : RawIntent) (minimum_words : ℕ)
    → (evaluate_payment_intent u description (object raw) minimum_words).allowed ≡ true
    → Matches u (strip u description) raw
unfolding evaluate_payment_intent
allowed-Matches u description raw minimum_words h =
    evaluate_object-allowed u (strip u description) raw h

-- A request whose `payment_intent` object matches is allowed.
pub Matches-allowed :
    (u : Unicode) (description : Text) (raw : RawIntent) (minimum_words : ℕ)
    → Matches u (strip u description) raw
    → (evaluate_payment_intent u description (object raw) minimum_words).allowed ≡ true
unfolding evaluate_payment_intent evaluate_object
Matches-allowed u description raw minimum_words m = ground (
  arith,
  match_task-allows u (strip u description) m.task_id m.task m.category m.categories m.purpose
      m.permitted m.related,
)

filled_text-again :
    (u : Unicode) (j : Option Json) (t : Text)
    → filled_text u j ≡ some t
    → filled_text u (some (text t)) ≡ some t
unfolding filled_text
filled_text-again u j t h = ground arith

module _ (u : Unicode) (apart : (c : ℕ) → u.is_space c ≡ true → is_token_char c ≡ false)
    (splits : (a b : Text) → u.nfkd (a ++ (32 ∷ b)) ≡ u.nfkd a ++ (32 ∷ u.nfkd b)) where
  -- Whatever the description says, a request is allowed whose stated purpose repeats the task, if
  -- the task and the category are filled texts, the task names two concepts, the category is one of
  -- those that the request itself permits, and the task's identifier is absent, null or a filled text.
  pub copied_task-allowed :
      (description task category : Text) (categories : List Text) (raw : RawIntent)
      (task_id : Option Text) (minimum_words : ℕ)
      → filled_text u raw.task ≡ some task
      → raw.purchase_purpose ≡ some (text task)
      → filled_text u raw.service_category ≡ some category
      → clean_string_list u raw.allowed_service_categories ≡ some categories
      → read_task_id u raw.task_id ≡ some task_id
      → has_text (normalize_category u category) categories ≡ true
      → 2 ≤ length (concepts u task)
      → (evaluate_payment_intent u description (object raw) minimum_words).allowed ≡ true
  copied_task-allowed description task category categories raw task_id minimum_words ht hp hc hl hi
        permitted two =
      Matches-allowed u description raw minimum_words (record {
        task = task;
        category = category;
        categories = categories;
        purpose = task;
        task_id = task_id;
        has_task = ht;
        has_category = hc;
        has_categories = hl;
        has_purpose = rw hp (filled_text-again u raw.task task ht);
        has_task_id = hi;
        permitted = permitted;
        related =
            rw
              (intersect-Subset (concepts u task) (concepts u (strip u description ++ (32 ∷ task)))
                (concepts-join u apart splits (strip u description) task))
              two;
      })

record Bounded (d : IntentDecision) : Type 0 where
  fits : d.match_score.0 ≤ d.match_score.1

score_of-Bounded :
    (allowed : Bool) (matched all : List Text)
    → length matched ≤ length all
    → (score_of allowed matched all).0 ≤ (score_of allowed matched all).1
unfolding score_of
score_of-Bounded allowed matched [] h = ground arith
score_of-Bounded allowed matched (x ∷ xs) h = h

decision-Bounded :
    (allowed : Bool) (code : ReasonCode) (purchase : Text) (mode : Mode)
    (id task category : Option Text) (categories xs ys : List Text)
    → Bounded (decision allowed code purchase mode id task category categories xs ys)
unfolding decision
decision-Bounded allowed code purchase mode id task category categories xs ys = record {
  fits = score_of-Bounded allowed (intersect xs ys) (union xs ys) (length-intersect-union xs ys);
}

if-Bounded :
    (b : Bool) (d e : IntentDecision) → Bounded d → Bounded e → Bounded (if b then d else e)
if-Bounded true d e p q = p
if-Bounded false d e p q = q

match_task-Bounded :
    (u : Unicode) (purchase : Text) (id : Option Text) (task category : Text)
    (categories : List Text) (purpose : Text)
    → Bounded (match_task u purchase id task category categories purpose)
unfolding match_task
match_task-Bounded u purchase id task category categories purpose =
    search (if-Bounded, decision-Bounded)

invalid-Bounded :
    (purchase : Text) (task : Option Text) (categories : List Text)
    → Bounded (invalid purchase task categories)
invalid-Bounded purchase task categories = decision-Bounded _ _ _ _ _ _ _ _ _ _

evaluate_object-Bounded :
    (u : Unicode) (purchase : Text) (raw : RawIntent) → Bounded (evaluate_object u purchase raw)
unfolding evaluate_object
evaluate_object-Bounded u purchase raw =
    Option-branches Bounded (filled_text u raw.task) _ _ (invalid-Bounded purchase none []) λ task.
      let shown = some (strip u task) in
      Option-branches Bounded (filled_text u raw.service_category) _ _
        (invalid-Bounded purchase shown [])
        λ category.
          Option-branches Bounded (clean_string_list u raw.allowed_service_categories) _ _
            (invalid-Bounded purchase shown [])
            λ categories.
              Option-branches Bounded (filled_text u (purpose_or purchase raw.purchase_purpose)) _ _
                (invalid-Bounded purchase shown categories)
                λ purpose.
                  Option-branches Bounded (read_task_id u raw.task_id) _ _
                    (invalid-Bounded purchase shown categories)
                    λ id. match_task-Bounded u purchase id task category categories purpose

evaluate-Bounded :
    (u : Unicode) (description : Text) (intent : PaymentIntent) (minimum_words : ℕ)
    → Bounded (evaluate_payment_intent u description intent minimum_words)
unfolding evaluate_payment_intent
evaluate-Bounded u description missing n = search (if-Bounded, decision-Bounded)
evaluate-Bounded u description not_an_object n = decision-Bounded _ _ _ _ _ _ _ _ _ _
evaluate-Bounded u description (object raw) n = evaluate_object-Bounded u (strip u description) raw

-- The match score of every decision, of any mode, is at most one.
pub match_score-le_one :
    (u : Unicode) (description : Text) (intent : PaymentIntent) (minimum_words : ℕ)
    → let d = evaluate_payment_intent u description intent minimum_words in
      d.match_score.0 ≤ d.match_score.1
match_score-le_one u description intent n = (evaluate-Bounded u description intent n).fits
