-- ===== src/Commands/Profiles/Saved.antt =====
-- What `cmd_profile_remove` of src/main.rs has saved when it removes a profile.
use alt_keeper.Base.Outcome.{Outcome}
use alt_keeper.Base.Action.{
  Run, Action, ok, err, panic, stuck, Yields, and_then, keeps_yields, Keeps, keeps_then, Keeps-bind,
  Keeps-pure, Keeps-optional, optional, or_fail, pure, ◌>>=◌, Keeps-bind_ok,
}
use alt_keeper.Commands.Phone.{Machine, open_phone}
use alt_keeper.Base.{
  some, inl, [], ◌++◌, ◌∙◌, List, ◌≡◌, refl, none, Option, ap, true, inr, ◌∷◌, Bool-cases, ℕ,
  option_both, sym, if◌then◌else◌, Bool, Among,
}
use alt_keeper.Profile.Parse.{Plist, PhoneProfile, parse}
use alt_keeper.Commands.Profiles.{
  Disk, find_profile, saved_path, with_uuid, eq_ignore_ascii_case, remove_saved, save_and_remove,
  cmd_profile_remove, saved_dir, no_such_profile,
}
use alt_keeper.Base.Text.{Str, codes, str_eq, str_eq_iff}
use alt_keeper.Base.Bytes.{Bytes}
use alt_keeper.Phone.Address.{SocketAddr}
use alt_keeper.Apple.Session.{directory_mode}
use alt_keeper.Apple.Account.{private_mode}
use alt_keeper.Commands.Phone.Keeps.{open_phone-Keeps}
use mathlib.Core.Path.{subst}

-- The copy is one of those read, and the profile in it has the UUID that was asked for.
unfoldable pub IsWanted :
    {Dict : Type 0} → Plist Dict → Str → List Bytes → Bytes × PhoneProfile → Type 0
IsWanted P uuid raw (found, p) =
    Among found raw × (parse P found ≡ Outcome.ok p) × (eq_ignore_ascii_case p.uuid uuid ≡ true)

IsHit : {Dict : Type 0} → Plist Dict → Str → List Bytes → Option (Bytes × PhoneProfile) → Type 0
IsHit P uuid raw none = Unit
IsHit P uuid raw (some hit) = IsWanted P uuid raw hit

IsWanted-intro :
    {Dict : Type 0} (P : Plist Dict) (uuid : Str) (r : Bytes) (rs : List Bytes) (p : PhoneProfile)
    → parse P r ≡ Outcome.ok p
    → eq_ignore_ascii_case p.uuid uuid ≡ true
    → IsWanted P uuid (r ∷ rs) (r, p)
unfolding IsWanted
IsWanted-intro P uuid r rs p h k = (inl refl, h, k)

-- What is found among the later copies is found among all of them.
IsHit-later :
    {Dict : Type 0} (P : Plist Dict) (uuid : Str) (r : Bytes) (rs : List Bytes)
    (o : Option (Bytes × PhoneProfile))
    → IsHit P uuid rs o
    → IsHit P uuid (r ∷ rs) o
unfolding IsHit IsWanted
IsHit-later P uuid r rs none h = tt
IsHit-later P uuid r rs (some hit) (among, read, same) = (inr among, read, same)

later-Yields :
    {Dict : Type 0} (P : Plist Dict) (uuid : Str) (r : Bytes) (rs : List Bytes)
    (o : Run (Option (Bytes × PhoneProfile)))
    → Yields (IsHit P uuid rs) o
    → Yields (IsHit P uuid (r ∷ rs)) o
later-Yields P uuid r rs (ok o) h = IsHit-later P uuid r rs o h
later-Yields P uuid r rs (err e) h = h
later-Yields P uuid r rs panic h = h
later-Yields P uuid r rs stuck h = h

module _ {World Link Dict Session : Type 0} (M : Machine World Link Dict Session)
    (K : Disk World) where
  -- The run of `find_profile` from the test of the UUID on.
  abbrev Chosen : Str → Bytes → List Bytes → World → PhoneProfile → Bool → Type 0
  Chosen uuid r rs w p b =
      let hit : Option (Bytes × PhoneProfile) = if b then some (r, p) else none in
      Yields (IsHit M.plist uuid (r ∷ rs))
        ((elim hit as (λ _. Action World (Option (Bytes × PhoneProfile))) [
          | none ↦ find_profile M K uuid rs
          | some found ↦ pure (some found)
        ])
          w).0

  find_profile-IsWanted :
      (uuid : Str) (raw : List Bytes) (w : World)
      → Yields (IsHit M.plist uuid raw) (find_profile M K uuid raw w).0
  unfolding find_profile with_uuid IsHit
  find_profile-IsWanted uuid [] w = tt
  find_profile-IsWanted uuid (r ∷ rs) w = go (parse M.plist r) refl (
      later-Yields M.plist uuid r rs (find_profile M K uuid rs w).0
        (find_profile-IsWanted uuid rs w))
    where
      go :
          (o : Outcome PhoneProfile)
          → parse M.plist r ≡ o
          → Yields (IsHit M.plist uuid (r ∷ rs)) (find_profile M K uuid rs w).0
          → Yields (IsHit M.plist uuid (r ∷ rs)) (find_profile M K uuid (r ∷ rs) w).0
      go Outcome.refused e later = rw e later
      go Outcome.panic e later = rw e tt
      go Outcome.stuck e later = rw e tt
      go (Outcome.ok p) e later = elim (Bool-cases (eq_ignore_ascii_case p.uuid uuid)) [
        | inl same ↦
            rw e
              (subst (Chosen uuid r rs w p) (sym same) (IsWanted-intro M.plist uuid r rs p e same))
        | inr other ↦ rw e (subst (Chosen uuid r rs w p) (sym other) later)
      ]

  find_profile-Keeps :
      (I : World → Type 0) (uuid : Str) (raw : List Bytes) → Keeps I (find_profile M K uuid raw)
  unfolding find_profile
  find_profile-Keeps I uuid [] = λ w h. h
  find_profile-Keeps I uuid (r ∷ rs) =
      Keeps-bind I (optional (parse M.plist r)) _ (Keeps-optional I (parse M.plist r)) λ p.
        option_both (Keeps I) (with_uuid M K uuid r p) _ _ (find_profile-Keeps I uuid rs)
          λ hit. Keeps-pure I (some hit)

  -- A profile is removed in a world that the reading of its copy has left.
  module _ (I : World → Type 0) (uuid : Str)
      (saying : (s : Str) (w : World) → I w → I (M.network.say s w))
      (removing : (link : Link) (raw : List Bytes) (p : PhoneProfile) (found : Bytes) (v w : World)
        → (M.misagent.copy_all link v).0 ≡ ok raw
        → IsWanted M.plist uuid raw (found, p)
        → (K.read (saved_path p) w).0 ≡ ok found
        → I (K.read (saved_path p) w).1
        → I
            (M.misagent.remove link p.uuid (
              M.network.say
                (codes "Copia salvata in " ++ saved_path p)
                (K.read (saved_path p) w).1)).1) where
    remove_saved-Keeps :
        (link : Link) (raw : List Bytes) (found : Bytes) (p : PhoneProfile) (v w : World)
        → (M.misagent.copy_all link v).0 ≡ ok raw
        → IsWanted M.plist uuid raw (found, p)
        → I (K.read (saved_path p) w).1
        → I ((K.read (saved_path p) >>= remove_saved M K link found p) w).1
    unfolding remove_saved
    remove_saved-Keeps link raw found p v w copied wanted h = go (K.read (saved_path p) w).0 refl
      where
        go :
            (r : Run Bytes)
            → (K.read (saved_path p) w).0 ≡ r
            → I (and_then r (remove_saved M K link found p) (K.read (saved_path p) w).1).1
        go (err e) same = h
        go panic same = h
        go stuck same = h
        go (ok copy) same = elim (Bool-cases (str_eq copy found)) [
          | inr new ↦ rw new h
          | inl old ↦ rw old (
              keeps_then I _ _ _ (λ _. saying _)
                (removing link raw p found v w copied wanted
                  (same ∙ ap ok ((str_eq_iff copy found).0 old)) h))
        ]

    save_and_remove-Keeps :
        ((path : Str) → Keeps I (K.create_dir_all path))
        → ((path : Str) (mode : ℕ) → Keeps I (K.set_permissions path mode))
        → ((path : Str) (bytes : Bytes) → Keeps I (K.write path bytes))
        → ((path : Str) → Keeps I (K.read path))
        → (link : Link) (raw : List Bytes) (hit : Bytes × PhoneProfile) (v : World)
        → (M.misagent.copy_all link v).0 ≡ ok raw
        → IsWanted M.plist uuid raw hit
        → Keeps I (save_and_remove M K link hit)
    unfolding save_and_remove
    save_and_remove-Keeps making setting writing reading link raw (found, p) v copied wanted =
        Keeps-bind I (K.create_dir_all saved_dir) _ (making saved_dir) λ _.
          Keeps-bind I (K.set_permissions saved_dir directory_mode) _
            (setting saved_dir directory_mode)
            λ _. Keeps-bind I (K.write (saved_path p) found) _ (writing (saved_path p) found) λ _.
              Keeps-bind I (K.set_permissions (saved_path p) private_mode) _
                (setting (saved_path p) private_mode)
                λ _ w h.
                  remove_saved-Keeps link raw found p v w copied wanted (reading (saved_path p) w h)

    -- `cmd_profile_remove` keeps whatever the search of the phone, the reading of its profiles and the
    -- file system keep, if the removal of a profile keeps it in one case: the profile was read from
    -- bytes that are among the copies of the phone's profiles, has the UUID asked for, up to case, and
    -- its file in `profili-salvati` has just been read and held those bytes. It removes no profile in any
    -- other case.
    pub cmd_profile_remove-saved :
        ((addr : SocketAddr) (path : Str) (w : World) → I w → I (M.network.connect addr path w).1)
        → ((w : World) → I w → I (M.network.browse w).1)
        → ((s : Str) (w : World) → I w → I (M.network.create_dir_all s w))
        → ((s t : Str) (w : World) → I w → I (M.network.write s t w))
        → ((link : Link) → Keeps I (M.misagent.copy_all link))
        → ((path : Str) → Keeps I (K.create_dir_all path))
        → ((path : Str) (mode : ℕ) → Keeps I (K.set_permissions path mode))
        → ((path : Str) (bytes : Bytes) → Keeps I (K.write path bytes))
        → ((path : Str) → Keeps I (K.read path))
        → (addr : Option SocketAddr) → Keeps I (cmd_profile_remove M K addr (some uuid))
    unfolding cmd_profile_remove IsHit
    cmd_profile_remove-saved trying browsing making_net writing_net copying making setting writing
          reading addr =
        Keeps-bind I (open_phone M addr) _
          (open_phone-Keeps M I saying trying browsing making_net writing_net addr)
          λ link. Keeps-bind_ok I (M.misagent.copy_all link) _ (copying link) λ raw v copied w h.
            keeps_yields I (IsHit M.plist uuid raw) (find_profile M K uuid raw w).0 _
              (find_profile M K uuid raw w).1 (find_profile-IsWanted uuid raw w)
              (remove link raw v copied) (find_profile-Keeps I uuid raw w h)
      where
        remove :
            (link : Link) (raw : List Bytes) (v : World)
            → (M.misagent.copy_all link v).0 ≡ ok raw
            → (o : Option (Bytes × PhoneProfile)) → IsHit M.plist uuid raw o
            → Keeps I (or_fail no_such_profile o >>= save_and_remove M K link)
        remove link raw v copied none wanted = λ w h. h
        remove link raw v copied (some hit) wanted =
            save_and_remove-Keeps making setting writing reading link raw hit v copied wanted
