-- ===== src/Web/Views.antt =====
-- `app_views` of src/web.rs and its parts.
pub mod Sorted
pub mod Rows
use alt_keeper.Profile.Latest.{ℤ, pos, negsuc, latest_by_bundle}
use alt_keeper.Base.{
  some, [], ◌||◌, ◌&&◌, Bool, not, none, if◌then◌else◌, true, ◌∷◌, ℕ, false, List, ◌==◌, ltb, leb,
}
use alt_keeper.Base.Text.{Str, strip_suffix, codes}
use alt_keeper.Commands.Phone.{mine_of, days_or_expired}
use alt_keeper.Profile.Parse.{PhoneProfile}

pub record AppView : Type 0 where
  pub label : Str
  pub bundle : Str
  pub days : ℤ
  pub expires : Str
  pub level : Str

unfoldable pub label_of : Str → Str → Str
label_of bundle team = elim (strip_suffix (b'.' ∷ team) bundle) [ none ↦ bundle | some s ↦ s ]

-- `days <= n`, for n not negative.
unfoldable pub at_most : ℕ → ℤ → Bool
at_most n (pos m) = leb m n
at_most n (negsuc m) = true

unfoldable pub level_for : ℤ → Str
unfolding at_most
level_for days =
    if at_most 1 days then codes "urgent" else if at_most 3 days then codes "soon" else codes "ok"

-- The order of `i64`, and that of `String`, by bytes.
unfoldable pub int_lt : ℤ → ℤ → Bool
int_lt (pos m) (pos n) = ltb m n
int_lt (pos m) (negsuc n) = false
int_lt (negsuc m) (pos n) = true
int_lt (negsuc m) (negsuc n) = ltb n m

unfoldable pub str_leb : Str → Str → Bool
str_leb [] t = true
str_leb (c ∷ s) [] = false
str_leb (c ∷ s) (d ∷ t) = let rest = str_leb s t in ltb c d || (c == d && rest)

-- The comparison of `sort_by` is not `Greater`: by days, then by label.
unfoldable pub comes_first : AppView → AppView → Bool
unfolding int_lt str_leb
comes_first a b = int_lt a.days b.days || (not (int_lt b.days a.days) && str_leb a.label b.label)

-- `sort_by`, which keeps the order of equal elements.
unfoldable pub insert_view : AppView → List AppView → List AppView
insert_view v [] = v ∷ []
insert_view v (u ∷ us) =
    let rest = insert_view v us in if comes_first v u then v ∷ u ∷ us else u ∷ rest

unfoldable pub sort_views : List AppView → List AppView
unfolding insert_view
sort_views [] = []
sort_views (v ∷ vs) = insert_view v (sort_views vs)

-- `now` is the clock of `days_left`, and `show_date` the function `to_xml_format`.
module _ (show_date : ℕ → Str) (now : ℕ) where
  unfoldable pub expires_text : PhoneProfile → Str
  expires_text p = elim p.expires [ none ↦ codes "?" | some d ↦ show_date d ]

  unfoldable pub view_of : Str → PhoneProfile → Str → AppView
  unfolding label_of level_for expires_text
  view_of team p bundle =
      let days : ℤ = days_or_expired now p in
      record {
        label = label_of bundle team;
        bundle = bundle;
        days = days;
        expires = expires_text p;
        level = level_for days;
      }

  -- `filter_map`: a profile without a bundle has no row.
  unfoldable pub views_of : Str → List PhoneProfile → List AppView
  unfolding view_of
  views_of team [] = []
  views_of team (p ∷ ps) =
      let rest = views_of team ps in
      elim p.bundle_id [ none ↦ rest | some bundle ↦ view_of team p bundle ∷ rest ]

  unfoldable pub app_views : List PhoneProfile → Str → List AppView
  unfolding sort_views views_of mine_of
  app_views ps team = sort_views (views_of team (latest_by_bundle (mine_of team ps)))
