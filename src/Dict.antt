-- ===== src/Dict.antt =====
-- A table keyed by its primary key, and a Python dict: an association list. Identifiers, hashes
-- and keys are only compared in the program, so they are natural numbers.
use safe4_arc_demo.Prelude.{
  ℕ, ◌≡◌, refl, Option, none, some, List, [], ◌∷◌, arith, ◌==◌, if◌then◌else◌,
}

abbrev pub Dict {ℓ} : Type ℓ → Type ℓ
Dict V = List (ℕ × V)

abbrev pub map_option {ℓ} : {V : Type ℓ} → (V → V) → Option V → Option V
map_option f none = none
map_option f (some v) = some (f v)

module _ {ℓ} {V : Type ℓ} where
  unfoldable pub lookup : ℕ → Dict V → Option V
  lookup k [] = none
  lookup k ((j, v) ∷ d) = if j == k then some v else lookup k d

  -- `INSERT … ON CONFLICT(key) DO UPDATE SET …`, and `d[k] = v`
  unfoldable pub insert : ℕ → V → Dict V → Dict V
  insert k v [] = (k, v) ∷ []
  insert k v ((j, w) ∷ d) = if j == k then (k, v) ∷ d else (j, w) ∷ insert k v d

  -- `UPDATE … SET … WHERE key = k`: a missing row is left missing.
  unfoldable pub adjust : ℕ → (V → V) → Dict V → Dict V
  adjust k f [] = []
  adjust k f ((j, w) ∷ d) = (j, if j == k then f w else w) ∷ adjust k f d

  pub lookup-insert :
      (k j : ℕ) (v : V) (d : Dict V)
      → lookup j (insert k v d) ≡ (if k == j then some v else lookup j d)
  unfolding lookup insert
  lookup-insert k j v [] = refl
  lookup-insert k j v ((i, w) ∷ d) = ground (arith, lookup-insert k j v d)

  pub lookup-adjust :
      (k j : ℕ) (f : V → V) (d : Dict V)
      → lookup j (adjust k f d) ≡ (if k == j then map_option f (lookup j d) else lookup j d)
  unfolding lookup adjust
  lookup-adjust k j f [] = ground arith
  lookup-adjust k j f ((i, w) ∷ d) = ground (arith, lookup-adjust k j f d)

  pub lookup-empty : (k : ℕ) → lookup k [] ≡ none
  unfolding lookup
  lookup-empty k = refl
