-- ===== src/Intent/Concepts.antt =====
-- Sets of concepts: membership, and what a longer text has.
use safe4_arc_demo.Prelude.{
  ℕ, ◌≤◌, ◌≡◌, refl, ap, Bool, true, false, List, [], ◌∷◌, ◌++◌, arith, length, keep, length-append,
}
use safe4_arc_demo.Text.{Text, Unicode, has_text, is_token_char, find_tokens, normalize_text}
use safe4_arc_demo.Text.Laws.{text_eq_refl, find_tokens-normalize_text}
use safe4_arc_demo.Intent.{add_text, alias, concepts_of, concepts, intersect, union}

-- Every element of the first list is in the second.
abbrev pub Subset : List Text → List Text → Type 0
Subset xs ys = (t : Text) → has_text t xs ≡ true → has_text t ys ≡ true

has-add_text : (a : Text) (xs : List Text) → Subset xs (add_text a xs)
unfolding has_text
has-add_text a xs t h = ground (arith, h)

-- More tokens behind others lose no concept.
concepts_of-append : (xs ys : List Text) → Subset (concepts_of ys) (concepts_of (xs ++ ys))
unfolding concepts_of
concepts_of-append [] ys t h = h
concepts_of-append (x ∷ xs) ys t h = ground (
  arith,
  concepts_of-append xs ys t h,
  has-add_text (alias x) (concepts_of (xs ++ ys)) t (concepts_of-append xs ys t h),
)

keep-all : (ys xs : List Text) → Subset xs ys → keep (λ x. has_text x ys) xs ≡ xs
keep-all ys [] sub = refl
keep-all ys (x ∷ xs) sub =
    rw (sub x (unfold has_text in rw text_eq_refl))
      (ap (λ zs. x ∷ zs) (keep-all ys xs (λ t h. sub t (unfold has_text in ground arith))))

pub intersect-Subset : (xs ys : List Text) → Subset xs ys → intersect xs ys ≡ xs
unfolding intersect
intersect-Subset xs ys sub = keep-all ys xs sub

length-keep : (p : Text → Bool) (xs : List Text) → length (keep p xs) ≤ length xs
length-keep p [] = omega arith
length-keep p (x ∷ xs) = ground (arith, length-keep p xs)

pub length-intersect-union : (xs ys : List Text) → length (intersect xs ys) ≤ length (union xs ys)
unfolding intersect union
length-intersect-union xs ys =
    omega (arith, length-keep (λ x. has_text x ys) xs, length-append xs _)

module _ (u : Unicode) (apart : (c : ℕ) → u.is_space c ≡ true → is_token_char c ≡ false)
    (splits : (a b : Text) → u.nfkd (a ++ (32 ∷ b)) ≡ u.nfkd a ++ (32 ∷ u.nfkd b)) where
  -- A text put behind another with a space between keeps all its concepts.
  pub concepts-join : (a b : Text) → Subset (concepts u b) (concepts u (a ++ (32 ∷ b)))
  unfolding concepts
  concepts-join a b =
      rw (find_tokens-normalize_text u apart splits a b)
        (concepts_of-append (find_tokens (normalize_text u a)) (find_tokens (normalize_text u b)))
