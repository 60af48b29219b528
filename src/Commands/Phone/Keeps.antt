-- ===== src/Commands/Phone/Keeps.antt =====
-- What `open_phone` and `phone_profiles` of src/main.rs leave as it is.
use alt_keeper.Base.Action.{Keeps, Keeps-bind, Keeps-pure, Keeps-optional, optional}
use alt_keeper.Commands.Phone.{
  Machine, parse_all, phone_profiles, open_phone, with_some, pairing_file, is_new,
}
use alt_keeper.Base.{Option, ◌∷◌, [], List, if_both}
use alt_keeper.Base.Bytes.{Bytes}
use alt_keeper.Base.Text.{Str}
use alt_keeper.Phone.Address.{SocketAddr}
use alt_keeper.Profile.Parse.{parse, PhoneProfile}
use alt_keeper.Phone.Connect.{connect_auto}
use alt_keeper.Phone.Connect.Order.{connect_auto-Keeps}

pub parse_all-Keeps :
    {World Link Dict Session : Type 0} (M : Machine World Link Dict Session) (I : World → Type 0)
    (raw : List Bytes)
    → Keeps I (parse_all M raw)
unfolding parse_all
parse_all-Keeps M I [] = Keeps-pure I {A = List PhoneProfile} []
parse_all-Keeps M I (r ∷ rs) =
    Keeps-bind I (optional (parse M.plist r)) _ (Keeps-optional I (parse M.plist r)) λ p.
      Keeps-bind I (parse_all M rs) _ (parse_all-Keeps M I rs) λ ps. Keeps-pure I (with_some p ps)

module _ {World Link Dict Session : Type 0} (M : Machine World Link Dict Session)
    (I : World → Type 0) (saying : (s : Str) (w : World) → I w → I (M.network.say s w)) where
  pub open_phone-Keeps :
      ((addr : SocketAddr) (path : Str) (w : World) → I w → I (M.network.connect addr path w).1)
      → ((w : World) → I w → I (M.network.browse w).1)
      → ((s : Str) (w : World) → I w → I (M.network.create_dir_all s w))
      → ((s t : Str) (w : World) → I w → I (M.network.write s t w))
      → (addr : Option SocketAddr) → Keeps I (open_phone M addr)
  unfolding open_phone
  open_phone-Keeps trying browsing making writing addr =
      Keeps-bind I (connect_auto M.network addr pairing_file) _
        (connect_auto-Keeps M.network I trying saying browsing making writing addr pairing_file)
        λ (found, link).
          Keeps-bind I _ _
            (if_both (Keeps I) (is_new M addr found) _ _ (saying _)
              (Keeps-pure I {A = Unit {0}} tt))
            λ _. Keeps-pure I link

  pub phone_profiles-Keeps :
      (link : Link) → Keeps I (M.misagent.copy_all link) → Keeps I (phone_profiles M link)
  unfolding phone_profiles
  phone_profiles-Keeps link copying =
      Keeps-bind I (M.misagent.copy_all link) (parse_all M) copying (parse_all-Keeps M I)
