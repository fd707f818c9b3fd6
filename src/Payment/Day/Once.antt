-- ===== src/Payment/Day/Once.antt =====
-- A receipt pays at most once.
use safe4_arc_demo.Prelude.{
  ℕ, ◌≤◌, ◌≡◌, refl, sym, Option, none, some, Bool, true, false, List, [], ◌∷◌, ◌==◌, ◌&&◌,
  if◌then◌else◌, ◌⊎◌, inl, inr, arith, Bool-cases, ==→≡,
}
use mathlib.Core.Path.{subst}
use safe4_arc_demo.Dict.{map_option}
use safe4_arc_demo.Store.Receipt.{Receipt, get_receipt, used}
use safe4_arc_demo.Payment.State.{ReceiptToken, signed, Request, Config, Server, Outcome}
use safe4_arc_demo.Payment.Finalize.{Finished}
use safe4_arc_demo.Payment.Authorize.{authorize_payment}
use safe4_arc_demo.Payment.Authorize.Receipts.{marked?, receipt-Stable, finalize-Q}
use safe4_arc_demo.Payment.Authorize.Stages.{Holds-authorize_payment}
use safe4_arc_demo.Payment.Authorize.Spending.{IsRefused, IsPaid, authorize_payment-Settles}
use safe4_arc_demo.Payment.Day.{payments_with, finalized?, token_names}

abbrev IsMarked : Option Receipt → Type 0
IsMarked o = marked? o ≡ true

used-IsMarked : (now : ℕ) (o : Option Receipt) → IsMarked o → IsMarked (map_option (used now) o)
used-IsMarked now none h = h
used-IsMarked now (some row) h = refl

-- A receipt that is marked stays marked.
stays-IsMarked :
    (c : Config) (r : Request) (id : ℕ) (s : Server)
    → IsMarked (get_receipt id s.receipts)
    → IsMarked (get_receipt id (authorize_payment c r s).1.receipts)
stays-IsMarked c r id s h =
    (Holds-authorize_payment (receipt-Stable id IsMarked used-IsMarked c r)
      (finalize-Q id IsMarked used-IsMarked c r) s h).holds

abbrev one_if : Bool → ℕ
one_if test = if test then 1 else 0

-- A token names the receipt that backs the payment, and no other.
named_by :
    (k id signature : ℕ) (o : Option ReceiptToken)
    → o ≡ some (signed k signature)
    → token_names id o ≡ (k == id)
named_by k id signature o e = ground (arith, e)

-- A call that was finalized with a receipt found it unmarked, and has marked it.
pays_once :
    (c : Config) (r : Request) (id : ℕ) (s : Server) (o : Outcome Finished × Server)
    → IsRefused r s o ⊎ IsPaid c r s o
    → (one_if (finalized? o.0 && token_names id r.receipt_token) ≡ 0)
      ⊎ ((marked? (get_receipt id s.receipts) ≡ false)
          × (one_if (finalized? o.0 && token_names id r.receipt_token) ≡ 1)
          × IsMarked (get_receipt id o.1.receipts))
pays_once c r id s o (inl h) = inl (rw h.answered refl)
pays_once c r id s o (inr h) =
    let b = h.backed in
    let names = named_by b.id id _ r.receipt_token b.token in
    elim (Bool-cases (b.id == id)) [
      | inl y ↦
          let same = ==→≡ b.id id y in
          inr (
            ground (arith, sym same, b.stored, b.payable.is_unused),
            ground (arith, h.went_on, names, y),
            subst (λ k. IsMarked (get_receipt k o.1.receipts)) same h.marked,
          )
      | inr n ↦ inl (ground (arith, h.went_on, names, n))
    ]

none_after :
    (c : Config) (id : ℕ) (rs : List Request) (s : Server)
    → IsMarked (get_receipt id s.receipts)
    → payments_with id c rs s ≡ 0
unfolding payments_with
none_after c id [] s h = refl
none_after c id (r ∷ rs) s h =
    let o = authorize_payment c r s in
    let rest = none_after c id rs o.1 (stays-IsMarked c r id s h) in
    elim (pays_once c r id s o (authorize_payment-Settles c r s)) [
      | inl zero ↦ omega (arith, zero, rest)
      | inr (unmarked, one, after) ↦ absurd (ground (arith, h, unmarked))
    ]

-- Of any calls of `/pay` made one after another, on whatever days, at most one is finalized with a
-- given receipt.
pub payments_with-le_one :
    (c : Config) (id : ℕ) (rs : List Request) (s : Server) → payments_with id c rs s ≤ 1
unfolding payments_with
payments_with-le_one c id [] s = omega arith
payments_with-le_one c id (r ∷ rs) s =
    let o = authorize_payment c r s in
    let rest = payments_with-le_one c id rs o.1 in
    elim (pays_once c r id s o (authorize_payment-Settles c r s)) [
      | inl zero ↦ omega (arith, zero, rest)
      | inr (unmarked, one, after) ↦ omega (arith, one, none_after c id rs o.1 after)
    ]
