-- ===== src/Lease.antt =====
-- lease.go. The clock's reading is an argument; times and durations are counted in one unit.
use goraft.Prelude.{ℕ, ◌+◌, ◌≤◌, ◌<◌, ◌≡◌, ◌≢◌, ◌↔◌, Bool, true, ltb, arith}

pub record Lease : Type 0 where
  pub expiration : ℕ
  pub duration : ℕ

unfoldable pub new_lease : ℕ → ℕ → Lease
new_lease now duration = record { duration = duration; expiration = now }

unfoldable pub renew : ℕ → Lease → Lease
renew now l = record l { expiration = now + l.duration }

unfoldable pub is_valid : ℕ → Lease → Bool
is_valid now l = ltb now l.expiration

-- A new lease is not valid at its creation or later. After a renewal at `at` it is valid exactly
-- at the times before `at` plus the duration of the lease.
pub is_valid-renew :
    (l : Lease) (at start now : ℕ)
    → ((is_valid now (renew at l) ≡ true) ↔ (now < at + l.duration))
      × (start ≤ now → is_valid now (new_lease start l.duration) ≢ true)
unfolding is_valid renew new_lease
is_valid-renew l at start now = ((λ h. ground arith, λ h. ground arith), λ h e. ground arith)
