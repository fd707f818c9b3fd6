-- ===== src/Text/Laws/Tokens.antt =====
-- `find_tokens` passes over what is no token character: stripping changes nothing, and the tokens
-- of two texts joined by a space are those of the first, then those of the second.
use safe4_arc_demo.Prelude.{
  ℕ, ◌≡◌, refl, ap, Bool, true, false, List, [], ◌∷◌, ◌++◌, ltb, Bool-cases, inl, inr, ◌∙◌, sym,
  keep-append,
}
use mathlib.Core.List.{map-append}
use safe4_arc_demo.Text.{
  Text, Unicode, drop_while, drop_while_end, cons_unless, strip, ascii_lower, to_lower,
  normalize_text, is_token_char, flush, tokens_from, find_tokens,
}

flush-append : (run : Text) (xs ys : List Text) → flush run (xs ++ ys) ≡ flush run xs ++ ys
flush-append [] xs ys = refl
flush-append (c ∷ cs) xs ys = refl

tokens_from-other :
    (run : Text) (c : ℕ) (cs : Text)
    → is_token_char c ≡ false
    → tokens_from run (c ∷ cs) ≡ flush run (tokens_from [] cs)
unfolding tokens_from
tokens_from-other run c cs h = rw (h, tokens_from)

-- A character that is no token character splits the text.
pub tokens_from-split :
    (s : ℕ)
    → is_token_char s ≡ false
    → (a run b : Text) → tokens_from run (a ++ (s ∷ b)) ≡ tokens_from run a ++ tokens_from [] b
unfolding tokens_from
tokens_from-split s h [] run b =
    tokens_from-other run s b h ∙ flush-append run [] (tokens_from [] b)
tokens_from-split s h (c ∷ cs) run b = elim (Bool-cases (is_token_char c)) [
  | inl e ↦ rw e (tokens_from-split s h cs (run ++ c ∷ []) b)
  | inr e ↦
      rw e (
        rw (tokens_from-split s h cs [] b)
          (flush-append run (tokens_from [] cs) (tokens_from [] b)))
]

module _ (p : ℕ → Bool) (apart : (c : ℕ) → p c ≡ true → is_token_char c ≡ false) where
  tokens-drop_while : (cs : Text) → tokens_from [] (drop_while p cs) ≡ tokens_from [] cs
  unfolding drop_while
  tokens-drop_while [] = refl
  tokens-drop_while (c ∷ cs) = elim (Bool-cases (p c)) [
    | inl e ↦ rw e (tokens-drop_while cs ∙ sym (tokens_from-other [] c cs (apart c e)))
    | inr e ↦ rw e
  ]

  tokens-cons_unless :
      (c : ℕ) (rest cs run : Text)
      → ((r : Text) → tokens_from r rest ≡ tokens_from r cs)
      → tokens_from run (cons_unless p c rest) ≡ tokens_from run (c ∷ cs)
  unfolding tokens_from
  tokens-cons_unless c [] cs run ih = elim (Bool-cases (p c)) [
    | inl e ↦ rw (e, apart c e, ← ih [])
    | inr e ↦ rw (e, ← ih (run ++ c ∷ []), ← ih [])
  ]
  tokens-cons_unless c (d ∷ ds) cs run ih = elim (Bool-cases (is_token_char c)) [
    | inl e ↦ rw e (ih (run ++ c ∷ []))
    | inr e ↦ rw e (ap (flush run) (ih []))
  ]

  tokens-drop_while_end :
      (cs run : Text) → tokens_from run (drop_while_end p cs) ≡ tokens_from run cs
  unfolding drop_while_end
  tokens-drop_while_end [] run = refl
  tokens-drop_while_end (c ∷ cs) run =
      tokens-cons_unless c (drop_while_end p cs) cs run (λ r. tokens-drop_while_end cs r)

-- `find_tokens` of the normalised text needs no stripping.
module _ (u : Unicode) (apart : (c : ℕ) → u.is_space c ≡ true → is_token_char c ≡ false) where
  pub find_tokens-strip : (t : Text) → find_tokens (strip u t) ≡ find_tokens t
  unfolding find_tokens strip
  find_tokens-strip t =
      tokens-drop_while_end u.is_space apart (drop_while u.is_space t) []
      ∙ tokens-drop_while u.is_space apart t

  module _ (splits : (a b : Text) → u.nfkd (a ++ (32 ∷ b)) ≡ u.nfkd a ++ (32 ∷ u.nfkd b)) where
    ascii_lower-join :
        (a b : Text) → ascii_lower u (a ++ (32 ∷ b)) ≡ ascii_lower u a ++ (32 ∷ ascii_lower u b)
    unfolding ascii_lower to_lower
    ascii_lower-join a b =
        rw (splits a b, keep-append (λ c. ltb c 128) (u.nfkd a) (32 ∷ u.nfkd b), map-append)

    -- The tokens of two texts joined by a space.
    pub find_tokens-normalize_text :
        (a b : Text)
        → find_tokens (normalize_text u (a ++ (32 ∷ b)))
          ≡ find_tokens (normalize_text u a) ++ find_tokens (normalize_text u b)
    unfolding normalize_text
    find_tokens-normalize_text a b =
        rw
          (
            find_tokens-strip (ascii_lower u (a ++ (32 ∷ b))),
            find_tokens-strip (ascii_lower u a),
            find_tokens-strip (ascii_lower u b),
            ascii_lower-join a b,
          )
          (unfold find_tokens is_token_char in
            tokens_from-split 32 refl (ascii_lower u a) [] (ascii_lower u b))
