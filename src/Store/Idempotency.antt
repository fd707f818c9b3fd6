-- ===== src/Store/Idempotency.antt =====
-- app/storage.py: the table `idempotency_records`, over the type of the stored response bodies.
use safe4_arc_demo.Prelude.{ℕ, ◌≡◌, Option, some, ◌==◌, if◌then◌else◌}
use safe4_arc_demo.Dict.{Dict, lookup, insert, lookup-insert}

pub record IdempotencyRecord (Body : Type 0) : Type 0 where
  pub request_hash : ℕ
  pub status_code : ℕ
  pub response_body : Body

module _ {Body : Type 0} where
  unfoldable pub get_idempotency :
      ℕ → Dict (IdempotencyRecord Body) → Option (IdempotencyRecord Body)
  get_idempotency key rows = lookup key rows

  unfoldable pub save_idempotency :
      ℕ → ℕ → ℕ → Body → Dict (IdempotencyRecord Body) → Dict (IdempotencyRecord Body)
  save_idempotency key request_hash status_code body rows =
      insert key
        (record { request_hash = request_hash; status_code = status_code; response_body = body })
        rows

  pub get-save_idempotency :
      (k j hash code : ℕ) (body : Body) (rows : Dict (IdempotencyRecord Body))
      → get_idempotency j (save_idempotency k hash code body rows) ≡ (
          if k == j
          then some (record { request_hash = hash; status_code = code; response_body = body })
          else get_idempotency j rows)
  unfolding get_idempotency save_idempotency
  get-save_idempotency k j hash code body rows = lookup-insert k j _ rows
