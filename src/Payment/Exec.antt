-- ===== src/Payment/Exec.antt =====
-- Stages of the payment decision, composed: a stage that answers ends the call.
use safe4_arc_demo.Prelude.{◌≡◌, refl, arith}
use safe4_arc_demo.Payment.State.{Server, Outcome, next, respond}

module _ {ℓ κ} {A : Type ℓ} {B : Type κ} where
  abbrev pub continue : (A → Server → Outcome B × Server) → Outcome A → Server → Outcome B × Server
  continue f (next a) s = f a s
  continue f (respond answer) s = (respond answer, s)

  infixl 5 ◌>>=◌ ◌>>◌
  unfoldable pub ◌>>=◌ :
      (Server → Outcome A × Server)
      → (A → Server → Outcome B × Server)
      → Server
      → Outcome B × Server
  ◌>>=◌ m f s = let (o, s') = m s in continue f o s'

  abbrev pub ◌>>◌ :
      (Server → Outcome A × Server) → (Server → Outcome B × Server) → Server → Outcome B × Server
  m >> k = m >>= λ _. k

  -- What a composition that went on has gone through.
  pub record WentThrough (m : Server → Outcome A × Server) (f : A → Server → Outcome B × Server)
      (s s' : Server) (b : B) : Type (ℓ ⊔ κ) where
    pub value : A
    pub between : Server
    pub first : m s ≡ (next value, between)
    pub second : f value between ≡ (next b, s')

  continue-next :
      (o : Outcome A × Server) (f : A → Server → Outcome B × Server) (s s' : Server) (b : B)
      → continue f o.0 o.1 ≡ (next b, s')
      → WentThrough (λ _. o) f s s' b
  continue-next (next a, s'') f s s' b h = record {
    value = a;
    between = s'';
    first = refl;
    second = h;
  }
  continue-next (respond answer, s'') f s s' b h = absurd (ground arith)

  pub bind-next :
      (m : Server → Outcome A × Server) (f : A → Server → Outcome B × Server) (s s' : Server)
      (b : B)
      → (m >>= f) s ≡ (next b, s')
      → WentThrough m f s s' b
  unfolding ◌>>=◌
  bind-next m f s s' b h =
      let w = continue-next (m s) f s s' b h in
      record { value = w.value; between = w.between; first = w.first; second = w.second }
