-- ===== src/Store/Receipt.antt =====
-- app/storage.py: the table `receipts`. The metadata that `issue_receipt` writes is the amount,
-- the currency and the expiry, which stand here as fields.
use safe4_arc_demo.Prelude.{ℕ, ◌≡◌, Option, some, ◌==◌, if◌then◌else◌}
use safe4_arc_demo.Dict.{Dict, lookup, insert, adjust, map_option, lookup-insert, lookup-adjust}

-- `paid` is the one status that the verifier accepts.
pub data ReceiptStatus : Type 0 where
  paid : ReceiptStatus
  other_status : ℕ → ReceiptStatus

pub record Receipt : Type 0 where
  pub status : ReceiptStatus
  pub pay_to : ℕ
  pub used_at : Option ℕ
  pub amount_due : ℕ
  pub currency : ℕ
  -- `none` is an empty text: no expiry
  pub expires_at : Option ℕ

unfoldable pub get_receipt : ℕ → Dict Receipt → Option Receipt
get_receipt receipt rows = lookup receipt rows

unfoldable pub upsert_receipt : ℕ → Receipt → Dict Receipt → Receipt × Dict Receipt
upsert_receipt receipt row rows = (row, insert receipt row rows)

abbrev pub used : ℕ → Receipt → Receipt
used now row = record row { used_at = some now }

unfoldable pub mark_receipt_used : ℕ → ℕ → Dict Receipt → Dict Receipt
mark_receipt_used now receipt rows = adjust receipt (used now) rows

pub get-upsert_receipt :
    (k j : ℕ) (row : Receipt) (rows : Dict Receipt)
    → get_receipt j (upsert_receipt k row rows).1
      ≡ (if k == j then some row else get_receipt j rows)
unfolding get_receipt upsert_receipt
get-upsert_receipt k j row rows = lookup-insert k j row rows

-- Marking stamps the named receipt, if it is there, and changes no other.
pub get-mark_receipt_used :
    (now k j : ℕ) (rows : Dict Receipt)
    → get_receipt j (mark_receipt_used now k rows)
      ≡ (if k == j then map_option (used now) (get_receipt j rows) else get_receipt j rows)
unfolding get_receipt mark_receipt_used
get-mark_receipt_used now k j rows = lookup-adjust k j (used now) rows
