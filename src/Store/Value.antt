-- ===== src/Store/Value.antt =====
-- The JSON values that the service writes into the details of audit entries, logs and alerts.
use Prim.Native.String.{String}
use safe4_arc_demo.Prelude.{ℕ, List, Option, none, some, Bool}

pub data Value : Type 0 where
  null : Value
  text : String → Value
  -- an identifier, a hash or another text that the program does not look into
  opaque_text : ℕ → Value
  number : ℕ → Value
  flag : Bool → Value
  -- a `Decimal` with six places, printed by `decimal_to_text`
  money : ℕ → Value

-- A JSON object, as the list of its fields.
abbrev pub Details : Type 0
Details = List (String × Value)

abbrev pub opaque? : Option ℕ → Value
opaque? none = null
opaque? (some t) = opaque_text t

abbrev pub text? : Option String → Value
text? none = null
text? (some t) = text t
