-- ===== src/Accounting/Sum.antt =====
-- The checked sum of two byte counts.
use over_vpn.Base.{◌≡◌, ◌↔◌, arith, ℤ, ◌≤ℤ◌, ◌+ℤ◌, NonNeg, ok}
use over_vpn.Accounting.{checked_byte_sum, max_signed_bigint}

-- The checked sum returns a value exactly when both terms are not negative, the value is their
-- sum, and it fits a signed 64-bit integer.
pub checked_byte_sum_iff :
    (left right v : ℤ)
    → (checked_byte_sum left right ≡ ok v)
      ↔ (NonNeg left × NonNeg right × (v ≤ℤ max_signed_bigint) × (v ≡ left +ℤ right))
unfolding checked_byte_sum
checked_byte_sum_iff left right v = (λ h. ground arith, λ h. ground arith)
