-- ===== src/Commands/Renew/Due.antt =====
-- Which bundles `cmd_renew` of src/main.rs renews.
use alt_keeper.Profile.Latest.{ℤ, pos, negsuc, days_left}
use alt_keeper.Base.{[], some, ◌⊎◌, none, ◌∷◌, ◌≡◌, false, Option, ℕ, List}
use alt_keeper.Commands.Renew.{is_more}
use alt_keeper.Base.Text.{Str}

-- The entry of a bundle is in the list, with some number of days.
unfoldable pub IsDue : Str → List (Str × ℤ) → Type 0
IsDue b [] = ⊥
IsDue b ((c, days) ∷ due) = (b ≡ c) ⊎ IsDue b due

-- No more days than `min`, of a profile whose expiry is `o`.
abbrev pub IsWithin : ℕ → ℕ → Option ℕ → Type 0
IsWithin now min o =
    is_more (elim (days_left now o) [ none ↦ negsuc 0 | some z ↦ z ]) (pos min) ≡ false
