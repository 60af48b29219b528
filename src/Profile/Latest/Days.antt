-- ===== src/Profile/Latest/Days.antt =====
-- What the number of days of src/profile.rs says about the instants.
use alt_keeper.Base.{
  ◌+◌, ◌/◌, some, arith, ◌^◌, inr, ◌≤◌, ◌<◌, ◌-◌, inl, ◌≡◌, refl, ℕ, ◌*◌, Bool-cases, leb,
}
use alt_keeper.Profile.Latest.{days_left, ℤ, pos, negsuc}

abbrev pub day : ℕ
day = 86400 * 10 ^ 9

-- `pos n`: the expiry is to come, in at least n days and less than n + 1. `negsuc n`: it is past, by
-- at least n days and less than n + 1.
pub IsDaysTo : ℕ → ℕ → ℤ → Type 0
IsDaysTo now exp (pos n) = (now ≤ exp) × (n * day ≤ exp - now) × (exp - now < (n + 1) * day)
IsDaysTo now exp (negsuc n) = (exp < now) × (n * day ≤ now - exp) × (now - exp < (n + 1) * day)

-- `days_left` counts the whole days up to the expiry, and is negative exactly after it: -1 on the day
-- that follows, and so on.
pub days_left-IsDaysTo :
    (now exp : ℕ) → (z : ℤ) × (days_left now (some exp) ≡ some z) × IsDaysTo now exp z
unfolding days_left IsDaysTo
days_left-IsDaysTo now exp = elim (Bool-cases (leb now exp)) [
  | inl before ↦ rw before (pos ((exp - now) / day), refl, (ground arith, omega arith, omega arith))
  | inr after ↦
      rw after (negsuc ((now - exp) / day), refl, (ground arith, omega arith, omega arith))
]
