-- ===== src/Web/Views/Rows.antt =====
-- Which bundles the rows of `app_views` of src/web.rs show.
use alt_keeper.Base.{◌∷◌, List, ◌≡◌, ◌⊎◌, []}
use alt_keeper.Base.Text.{Str}
use alt_keeper.Web.Views.{AppView}

-- The rows show the bundle.
unfoldable pub IsShown : Str → List AppView → Type 0
IsShown b [] = ⊥
IsShown b (v ∷ vs) = (v.bundle ≡ b) ⊎ IsShown b vs
