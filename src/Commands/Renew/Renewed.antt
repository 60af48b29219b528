-- ===== src/Commands/Renew/Renewed.antt =====
-- What a renewal of src/main.rs that returns has done on the phone.
use alt_keeper.Base.Action.{Action, ok, Keeps}
use alt_keeper.Commands.Renew.{find_app}
use alt_keeper.Commands.Phone.{Machine}
use alt_keeper.Apple.Team.{Team, AppId, app_ids, pick_team}
use alt_keeper.Base.{some, false, List, ◌≡◌, none}
use alt_keeper.Base.Text.{Str, codes}
use alt_keeper.Base.Bytes.{Bytes}
use alt_keeper.Apple.Account.{Account}

module _ {World Link Dict Session : Type 0} (M : Machine World Link Dict Session) (b : Str) where
  -- The world when the sign-in begins, from the world when it is known what is due.
  abbrev pub signing_in : World → World
  signing_in w = M.set_interactive false (M.network.say (codes "Signing in to Apple...") w)

  -- The list of App IDs that Apple gives in a session has none for the bundle.
  abbrev pub LacksApp : Str → Session → World → Type 0
  LacksApp team_id sess w =
      (team : Team) × (ids : List AppId) × ((pick_team M.developer sess (some team_id) false w).0
        ≡ ok team)
      × ((app_ids M.developer sess team (pick_team M.developer sess (some team_id) false w).1).0
          ≡ ok ids)
      × (find_app b ids ≡ none)

  -- The same of the session that signing in gives.
  abbrev pub IsUnknown : Account → Str → World → Type 0
  IsUnknown acc team_id w =
      (sess : Session) × ((M.open_session acc.apple_id acc.password (signing_in w)).0 ≡ ok sess)
      × LacksApp team_id sess (M.open_session acc.apple_id acc.password (signing_in w)).1
