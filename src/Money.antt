-- ===== src/Money.antt =====
-- app/core/config.py and app/main.py: amounts of money. A `Decimal` that the service has accepted
-- has at most six places and is not negative; it is the number of its millionths.
use safe4_arc_demo.Prelude.{ℕ, ◌+◌, ◌*◌, ◌/◌, ◌≤◌, ◌<◌, ◌≡◌, max, arith}

-- The number of millionths in one unit: 1 / MONEY_SCALE.
abbrev pub unit_scale : ℕ
unit_scale = 1000000

-- `normalize_money` of a value given in millionths of `MONEY_SCALE`: half up to the nearest.
unfoldable pub normalize_money : ℕ → ℕ
normalize_money value = (value + 500000) / unit_scale

-- `normalize_money(a + b)` of two accepted amounts.
unfoldable pub add_money : ℕ → ℕ → ℕ
unfolding normalize_money
add_money a b = normalize_money ((a + b) * unit_scale)

-- `fee_rate` is FEE_RATE in millionths, so the product counts millionths of MONEY_SCALE.
unfoldable pub compute_firewall_fee : ℕ → ℕ → ℕ
unfolding normalize_money
compute_firewall_fee fee_rate amount = max (normalize_money (amount * fee_rate)) 1

pub add_money_exact : (a b : ℕ) → add_money a b ≡ a + b
unfolding add_money
add_money_exact a b = omega arith

-- The fee is at least one millionth, and it is the exact product rounded to the nearest millionth,
-- a half going up, except that a product that rounds to zero costs one millionth.
pub fee_rounds_half_up :
    (fee_rate amount : ℕ)
    → (1 ≤ compute_firewall_fee fee_rate amount)
      × (amount * fee_rate < compute_firewall_fee fee_rate amount * unit_scale + 500000)
      × (compute_firewall_fee fee_rate amount * unit_scale
          ≤ max (amount * fee_rate + 500000) unit_scale)
unfolding compute_firewall_fee
fee_rounds_half_up r a = omega arith
