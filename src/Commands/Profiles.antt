-- ===== src/Commands/Profiles.antt =====
-- `cmd_profile_remove` and `cmd_profile_restore` of src/main.rs.
pub mod Saved
use alt_keeper.Base.Action.{
  Run, Action, ok, err, fail, pure, or_fail, effect, optional, ◌>>=◌, ◌>>◌,
}
use alt_keeper.Base.{◌++◌, none, if◌then◌else◌, ℕ, ◌∷◌, ◌/◌, [], Bool, some, Option, not, List}
use alt_keeper.Base.Text.{Str, codes, str_eq, to_ascii_lowercase}
use alt_keeper.Profile.Parse.{PhoneProfile, parse}
use alt_keeper.Commands.Phone.{Machine, open_phone, say}
use alt_keeper.Base.Bytes.{Bytes}
use alt_keeper.Phone.Address.{SocketAddr}
use alt_keeper.Apple.Session.{directory_mode}
use alt_keeper.Apple.Account.{private_mode}

-- What the two commands use of the file system. An error's text is that of `dbg`.
pub record Disk (World : Type 0) : Type 0 where
  pub create_dir_all : Str → Action World (Unit {0})
  pub set_permissions : Str → ℕ → Action World (Unit {0})
  pub write : Str → Bytes → Action World (Unit {0})
  pub read : Str → Action World Bytes

abbrev pub saved_dir : Str
saved_dir = codes "profili-salvati"

-- `a.eq_ignore_ascii_case(b)`
unfoldable pub eq_ignore_ascii_case : Str → Str → Bool
eq_ignore_ascii_case a b = str_eq (to_ascii_lowercase a) (to_ascii_lowercase b)

unfoldable pub saved_path : PhoneProfile → Str
saved_path p = saved_dir ++ (codes "/" ++ (p.uuid ++ codes ".mobileprovision"))

abbrev pub differs : Str → Str
differs path = codes "la copia in " ++ (path ++ codes " non coincide: non tolgo niente")

abbrev pub no_such_profile : Str
no_such_profile = codes "profilo non trovato sul telefono"

module _ {World Link Dict Session : Type 0} (M : Machine World Link Dict Session)
    (K : Disk World) where
  -- `profile::parse(r).filter(|p| p.uuid.eq_ignore_ascii_case(&uuid)).map(|p| (r, p))`
  unfoldable pub with_uuid : Str → Bytes → Option PhoneProfile → Option (Bytes × PhoneProfile)
  with_uuid uuid r none = none
  with_uuid uuid r (some p) = if eq_ignore_ascii_case p.uuid uuid then some (r, p) else none

  -- `raw.iter().find_map(...)`
  unfoldable pub find_profile : Str → List Bytes → Action World (Option (Bytes × PhoneProfile))
  unfolding with_uuid
  find_profile uuid [] = pure none
  find_profile uuid (r ∷ rs) = do
    p ← optional (parse M.plist r)
    elim (with_uuid uuid r p) [ none ↦ find_profile uuid rs | some hit ↦ pure (some hit) ]

  -- From the copy that was read back on.
  unfoldable pub remove_saved : Link → Bytes → PhoneProfile → Bytes → Action World (Unit {0})
  unfolding saved_path
  remove_saved link found parsed copy =
      if not (str_eq copy found) then fail (differs (saved_path parsed)) else do
        say M (codes "Copia salvata in " ++ saved_path parsed)
        M.misagent.remove link parsed.uuid
        say M (
            codes "Tolto dal telefono: "
            ++ (parsed.name ++ (codes "  [" ++ (parsed.uuid ++ codes "]"))))

  unfoldable pub save_and_remove : Link → Bytes × PhoneProfile → Action World (Unit {0})
  unfolding remove_saved saved_path
  save_and_remove link (found, parsed) = do
    K.create_dir_all saved_dir
    K.set_permissions saved_dir directory_mode
    K.write (saved_path parsed) found
    K.set_permissions (saved_path parsed) private_mode
    copy ← K.read (saved_path parsed)
    remove_saved link found parsed copy

  unfoldable pub cmd_profile_remove : Option SocketAddr → Option Str → Action World (Unit {0})
  unfolding find_profile save_and_remove
  cmd_profile_remove addr wanted = do
    uuid ← or_fail (codes "uso: altkeeper profile-remove <uuid>") wanted
    link ← open_phone M addr
    raw ← M.misagent.copy_all link
    hit ← find_profile uuid raw
    found ← or_fail no_such_profile hit
    save_and_remove link found

  unfoldable pub cmd_profile_restore : Option SocketAddr → Option Str → Action World (Unit {0})
  cmd_profile_restore addr path = do
    file ← or_fail (codes "uso: altkeeper profile-restore <file>") path
    bytes ← K.read file
    read ← optional (parse M.plist bytes)
    parsed ← or_fail (codes "il file non " ++ (195 ∷ 168 ∷ codes " un profilo valido")) read
    link ← open_phone M addr
    M.misagent.install link bytes
    say M (
        codes "Rimesso sul telefono: "
        ++ (parsed.name ++ (codes "  [" ++ (parsed.uuid ++ codes "]"))))
