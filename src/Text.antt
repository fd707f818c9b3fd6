-- ===== src/Text.antt =====
-- Python texts as lists of code points, and the operations of app/core/intent.py on them. What
-- Python and its Unicode tables do is a record of functions.
pub mod Laws
use Prim.Native.Char.{code}
use Prim.Native.String.{String}
use safe4_arc_demo.Prelude.{
  ℕ, ◌+◌, Bool, true, false, List, [], ◌∷◌, ◌++◌, ◌==◌, leb, ltb, if◌then◌else◌, ◌&&◌, ◌||◌, map,
  keep,
}

abbrev pub Text : Type 0
Text = List ℕ

-- A text literal of the source.
abbrev pub codes : String → Text
codes String.[] = []
codes (String.◌∷◌ c s) = code c ∷ codes s

pub record Unicode : Type 0 where
  -- `unicodedata.normalize("NFKD", …)`
  pub nfkd : Text → Text
  -- `str.isspace` of one character
  pub is_space : ℕ → Bool

unfoldable pub drop_while : (ℕ → Bool) → Text → Text
drop_while p [] = []
drop_while p (c ∷ cs) = let rest = drop_while p cs in if p c then rest else c ∷ cs

abbrev pub cons_unless : (ℕ → Bool) → ℕ → Text → Text
cons_unless p c [] = if p c then [] else c ∷ []
cons_unless p c (d ∷ ds) = c ∷ d ∷ ds

-- Trailing characters that pass the test leave; the others keep their order.
unfoldable pub drop_while_end : (ℕ → Bool) → Text → Text
drop_while_end p [] = []
drop_while_end p (c ∷ cs) = cons_unless p c (drop_while_end p cs)

-- `value.strip()`
unfoldable pub strip : Unicode → Text → Text
unfolding drop_while drop_while_end
strip u value = drop_while_end u.is_space (drop_while u.is_space value)

abbrev pub is_empty : Text → Bool
is_empty [] = true
is_empty (_ ∷ _) = false

unfoldable pub to_lower : ℕ → ℕ
to_lower c = if leb 65 c && leb c 90 then c + 32 else c

-- Decomposed, without what is not ASCII, in lower case.
unfoldable pub ascii_lower : Unicode → Text → Text
ascii_lower u value = map to_lower (keep (λ c. ltb c 128) (u.nfkd value))

-- `_normalize_text`
unfoldable pub normalize_text : Unicode → Text → Text
normalize_text u value = strip u (ascii_lower u value)

-- `[a-z0-9]`
unfoldable pub is_token_char : ℕ → Bool
is_token_char c = leb 97 c && leb c 122 || leb 48 c && leb c 57

abbrev pub flush : Text → List Text → List Text
flush [] ts = ts
flush (c ∷ cs) ts = (c ∷ cs) ∷ ts

-- The maximal runs, behind the run that is being read.
unfoldable pub tokens_from : Text → Text → List Text
unfolding is_token_char
tokens_from run [] = flush run []
tokens_from run (c ∷ cs) =
    let more = tokens_from (run ++ c ∷ []) cs in
    let next = tokens_from [] cs in if is_token_char c then more else flush run next

-- `_TOKEN_PATTERN.findall`
unfoldable pub find_tokens : Text → List Text
unfolding tokens_from
find_tokens value = tokens_from [] value

infix 50 ◌text_eq◌
unfoldable pub ◌text_eq◌ : Text → Text → Bool
[] text_eq [] = true
(a ∷ as') text_eq (b ∷ bs) = a == b && as' text_eq bs
_ text_eq _ = false

unfoldable pub has_text : Text → List Text → Bool
unfolding ◌text_eq◌
has_text t [] = false
has_text t (u ∷ us) = t text_eq u || has_text t us

-- `"-".join`
unfoldable pub join_dash : List Text → Text
join_dash [] = []
join_dash (t ∷ []) = t
join_dash (t ∷ u ∷ us) = t ++ (45 ∷ join_dash (u ∷ us))
