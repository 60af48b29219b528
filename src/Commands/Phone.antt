-- ===== src/Commands/Phone.antt =====
-- `open_phone`, `phone_profiles` and `profile_line` of src/main.rs.
pub mod Keeps
pub mod Mine
use alt_keeper.Phone.Connect.{connect_auto}
use alt_keeper.Base.Action.{Action, pure, effect, optional, ◌>>=◌, ◌>>◌}
use alt_keeper.Base.{
  true, ◌∷◌, some, none, Bool, false, ℕ, Option, [], ◌++◌, if◌then◌else◌, not, List,
}
use alt_keeper.Phone.Address.{Network, SocketAddr, addr_eq}
use alt_keeper.Base.Text.{Str, codes, str_eq}
use alt_keeper.Profile.Parse.{PhoneProfile, Plist, parse}
use alt_keeper.Base.Bytes.{Bytes}
use alt_keeper.Apple.Account.{Accounts}
use alt_keeper.Profile.Latest.{ℤ, days_left, negsuc}
use alt_keeper.Apple.Team.{Developer}

-- What the code uses of the phone's service for profiles. An error's text is that of `dbg`.
pub record Misagent (World Link : Type 0) : Type 0 where
  pub copy_all : Link → Action World (List Bytes)
  pub install : Link → Bytes → Action World (Unit {0})
  pub remove : Link → Str → Action World (Unit {0})

-- The system's clock and the texts of numbers and dates.
pub record Clock (World : Type 0) : Type 0 where
  pub now : World → ℕ
  pub print_usize : ℕ → Str
  pub print_i64 : ℤ → Str
  pub to_xml_format : ℕ → Str

-- All that the commands use of the outside.
pub record Machine (World Link Dict Session : Type 0) : Type 0 where
  pub network : Network World Link
  pub accounts : Accounts World
  pub plist : Plist Dict
  pub misagent : Misagent World Link
  pub clock : Clock World
  pub developer : Developer World Session
  -- `INTERACTIVE.store`, and `open_session` of src/apple.rs.
  pub set_interactive : Bool → World → World
  pub open_session : Str → Str → Action World Session

abbrev pub pairing_file : Str
pairing_file = codes "rp-pairing.plist"

abbrev pub with_some {ℓ} : {A : Type ℓ} → Option A → List A → List A
with_some none as' = as'
with_some (some a) as' = a ∷ as'

-- `p.team_id.as_deref() == Some(team)`
unfoldable pub is_of_team : Str → PhoneProfile → Bool
is_of_team team p = elim p.team_id [ none ↦ false | some t ↦ str_eq t team ]

-- `filter(|p| p.team_id.as_deref() == Some(team))`
unfoldable pub mine_of : Str → List PhoneProfile → List PhoneProfile
unfolding is_of_team
mine_of team [] = []
mine_of team (p ∷ ps) = let rest = mine_of team ps in if is_of_team team p then p ∷ rest else rest

-- `p.days_left().unwrap_or(-1)`
unfoldable pub days_or_expired : ℕ → PhoneProfile → ℤ
days_or_expired now p = elim (days_left now p.expires) [ none ↦ negsuc 0 | some z ↦ z ]

module _ {World Link Dict Session : Type 0} (M : Machine World Link Dict Session) where
  abbrev pub say : Str → Action World (Unit {0})
  say s = effect (M.network.say s)

  -- `addr != Some(found)`
  unfoldable pub is_new : Option SocketAddr → SocketAddr → Bool
  is_new none found = true
  is_new (some addr) found = not (addr_eq addr found)

  unfoldable pub open_phone : Option SocketAddr → Action World Link
  unfolding is_new
  open_phone addr = do
    reached ← connect_auto M.network addr pairing_file
    let (found, link) = reached
    if is_new addr found
        then say (codes "Telefono trovato a " ++ M.network.print_addr found)
        else pure tt
    pure link

  unfoldable pub parse_all : List Bytes → Action World (List PhoneProfile)
  parse_all [] = pure []
  parse_all (r ∷ rs) = do p ← optional (parse M.plist r); ps ← parse_all rs; pure (with_some p ps)

  unfoldable pub phone_profiles : Link → Action World (List PhoneProfile)
  unfolding parse_all
  phone_profiles link = M.misagent.copy_all link >>= parse_all

  unfoldable pub profile_line : ℕ → PhoneProfile → Str
  profile_line now p =
      let expires : Str = elim p.expires [ none ↦ codes "?" | some d ↦ M.clock.to_xml_format d ] in
      let days : Str = elim (days_left now p.expires) [
        | none ↦ codes "?"
        | some z ↦ M.clock.print_i64 z
      ] in
      codes "   "
      ++ (p.name
          ++ (codes "  ["
              ++ (p.uuid
                  ++ (codes "]  scade "
                      ++ (expires ++ (codes " (" ++ (days ++ codes " giorni)")))))))
