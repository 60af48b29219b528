-- ===== src/Altserver/Handlers/Profiles.antt =====
-- What `install_profiles` and `remove_profiles` of src/altserver.rs do to the phone.
use alt_keeper.Base.{
  [], some, inr, true, ◌≡◌, ◌∷◌, inl, refl, List, ◌⊎◌, Option-cases, Bool-cases, option_both,
  if_both, ◌∙◌, ap, map, none, Option,
}
use alt_keeper.Base.Outcome.{
  Outcome, ok, refused, panic, stuck, bound_ok, attempt, ◌>>=◌, attempt-some,
}
use mathlib.Core.Option
use alt_keeper.Altserver.Handlers.Named.{IsNamed, matches-IsNamed}
use alt_keeper.Altserver.Services.{Services, simple, Reply}
use alt_keeper.Altserver.Handlers.{
  install_profiles, install_each, install_blobs, decode_profiles, matches, remove_wanted,
  remove_each, remove_profiles, wanted, collect, decode_profile,
}
use alt_keeper.Base.Bytes.{Bytes}
use alt_keeper.Base.Text.{Str, codes}
use alt_keeper.Profile.Parse.{parse, PhoneProfile}
use alt_keeper.Web.Base64.{b64_decode}
use mathlib.Core.Path.{subst}

-- `I` holds of the world in which a handler ends.
unfoldable pub Keeps : {A World : Type 0} → (World → Type 0) → Outcome (A × World) → Type 0
Keeps I (ok (a, w)) = I w
Keeps I refused = Unit
Keeps I panic = Unit
Keeps I stuck = Unit

Keeps-bind :
    {A B World : Type 0} (I : World → Type 0) (m : Outcome A) (f : A → Outcome (B × World))
    → ((a : A) → Keeps I (f a))
    → Keeps I (m >>= f)
unfolding Keeps
Keeps-bind I (ok a) f k = k a
Keeps-bind I refused f k = tt
Keeps-bind I panic f k = tt
Keeps-bind I stuck f k = tt

-- Each element is a text that stands, in base 64, for the profile at the same place.
abbrev pub AllDecoded : List (Option Str) → List Bytes → Type 0
AllDecoded [] [] = Unit
AllDecoded [] (blob ∷ blobs) = ⊥
AllDecoded (v ∷ vs) [] = ⊥
AllDecoded (v ∷ vs) (blob ∷ blobs) =
    ((s : Str) × (v ≡ some s) × (b64_decode s ≡ some blob)) × AllDecoded vs blobs

mapped_some :
    {A B : Type 0} (f : A → B) (o : Option A) {b : B}
    → Option.map f o ≡ some b
    → (a : A) × (o ≡ some a) × (f a ≡ b)
mapped_some f none e = absurd (cc e)
mapped_some f (some a) e = (a, refl, cc e)

collect-AllDecoded :
    (vs : List (Option Str)) (blobs : List Bytes)
    → collect (map decode_profile vs) ≡ some blobs
    → AllDecoded vs blobs
unfolding collect decode_profile
collect-AllDecoded [] [] e = tt
collect-AllDecoded [] (blob ∷ blobs) e = absurd (cc e)
collect-AllDecoded (none ∷ vs) blobs e = absurd (cc e)
collect-AllDecoded (some s ∷ vs) blobs e = elim (Option-cases (b64_decode s)) [
  | inl bad ↦ absurd (cc (rw bad at e))
  | inr (blob, good) ↦
      let (rest, later, whole) =
        mapped_some (◌∷◌ blob) (collect (map decode_profile vs)) (rw good at e) in
      subst (AllDecoded (some s ∷ vs)) whole ((s, refl, good), collect-AllDecoded vs rest later)
]

module _ {Value World Link Dict : Type 0} (S : Services Value World Link Dict) where
  -- The request has a list of profiles, and these are all of them, in their order.
  abbrev pub IsRequested : Value → List Bytes → Type 0
  IsRequested req blobs =
      (vs : List (Option Str)) × (S.json.array_at req (codes "provisioningProfiles") ≡ some vs)
      × AllDecoded vs blobs

  decode_profiles-IsRequested :
      (req : Value) (blobs : List Bytes)
      → decode_profiles S req ≡ some blobs
      → IsRequested req blobs
  unfolding decode_profiles
  decode_profiles-IsRequested req blobs e =
      elim (Option-cases (S.json.array_at req (codes "provisioningProfiles"))) [
        | inl bad ↦ absurd (cc (rw (bad, decode_profiles) at e))
        | inr (vs, there) ↦
            (vs, there, collect-AllDecoded vs blobs (rw (there, decode_profiles) at e))
      ]

  -- Every blob is installed in turn, from one world to another.
  unfoldable pub Installed : Link → List Bytes → World → World → Type 0
  Installed link [] w w' = w ≡ w'
  Installed link (blob ∷ blobs) w w' =
      ((S.install link blob w).0 ≡ true) × Installed link blobs (S.install link blob w).1 w'

  install_each-Installed :
      (link : Link) (blobs : List Bytes) (w w' : World) (answer : Str)
      → install_each S link blobs w ≡ ok (simple answer, w')
      → Installed link blobs w w'
  unfolding install_each Installed
  install_each-Installed link [] w w' answer h = cc h
  install_each-Installed link (blob ∷ blobs) w w' answer h =
      let (_, _, after) = bound_ok (attempt (parse S.plist blob)) _ h in
      elim (Bool-cases (S.install link blob w).0) [
        | inr no' ↦ absurd (cc (no', after))
        | inl yes' ↦ (
          yes',
          install_each-Installed link blobs (S.install link blob w).1 w' answer (rw yes' at after),
        )
      ]

  -- `install_profiles` answers with success only where the request has a list of profiles, every one of
  -- them a text in base 64, and, if there are any, the phone was found and installed each of those that
  -- the texts stand for, in their order.
  pub install_profiles_success :
      (req : Value) (w w' : World) (answer : Str)
      → install_profiles S req w ≡ ok (simple answer, w')
      → (blobs : List Bytes) × IsRequested req blobs
        × (((blobs ≡ []) × (w ≡ w'))
            ⊎ ((link : Link) × ((S.connect_auto w).0 ≡ some link)
                × Installed link blobs (S.connect_auto w).1 w'))
  unfolding install_profiles install_blobs
  install_profiles_success req w w' answer h = elim (Option-cases (decode_profiles S req)) [
    | inl e ↦ absurd (cc (e, h))
    | inr (blobs, e) ↦
        (blobs, decode_profiles-IsRequested req blobs e, go blobs (rw (e, install_profiles) at h))
  ]
    where
      go :
          (blobs : List Bytes)
          → install_blobs S blobs w ≡ ok (simple answer, w')
          → ((blobs ≡ []) × (w ≡ w'))
            ⊎ ((link : Link) × ((S.connect_auto w).0 ≡ some link)
                × Installed link blobs (S.connect_auto w).1 w')
      go [] k = inl (refl, cc k)
      go (blob ∷ blobs) k = elim (Option-cases (S.connect_auto w).0) [
        | inl e ↦ absurd (cc (e, k))
        | inr (link, e) ↦ inr (
          link,
          e,
          install_each-Installed link (blob ∷ blobs) (S.connect_auto w).1 w' answer
              (rw (e, install_blobs) at k),
        )
      ]

  module _ (I : World → Type 0) (connecting : (w : World) → I w → I (S.connect_auto w).1) where
    install_each-Keeps :
        (installing : (link : Link) (blob : Bytes) (w : World) → I w → I (S.install link blob w).1)
        (link : Link) (blobs : List Bytes) (w : World)
        → I w
        → Keeps I (install_each S link blobs w)
    unfolding install_each Keeps
    install_each-Keeps installing link [] w h = h
    install_each-Keeps installing link (blob ∷ blobs) w h =
        let after = installing link blob w h in
        Keeps-bind I (attempt (parse S.plist blob)) _ λ _.
          if_both (Keeps I) (S.install link blob w).0 _ _
            (install_each-Keeps installing link blobs (S.install link blob w).1 after) after

    -- Where `parse` does not panic, `install_profiles` does nothing to the phone but install profiles,
    -- whatever the request says, its `activeProfiles` too: it keeps all that connecting and installing
    -- keep.
    pub install_profiles-Keeps :
        (installing : (link : Link) (blob : Bytes) (w : World) → I w → I (S.install link blob w).1)
        (req : Value) (w : World)
        → I w
        → Keeps I (install_profiles S req w)
    unfolding install_profiles install_blobs Keeps
    install_profiles-Keeps installing req w h =
        option_both (Keeps I) (decode_profiles S req) _ _ h go
      where
        go : (blobs : List Bytes) → Keeps I (install_blobs S blobs w)
        go [] = h
        go (blob ∷ blobs) = option_both (Keeps I) (S.connect_auto w).0 _ _ (connecting w h) λ link.
            install_each-Keeps installing link (blob ∷ blobs) (S.connect_auto w).1 (connecting w h)

    KeepsWorld : Outcome World → Type 0
    KeepsWorld (ok w) = I w
    KeepsWorld refused = Unit
    KeepsWorld panic = Unit
    KeepsWorld stuck = Unit

    KeepsWorld-bind :
        {A : Type 0} (m : Outcome A) (f : A → Outcome World)
        → ((a : A) → m ≡ ok a → KeepsWorld (f a))
        → KeepsWorld (m >>= f)
    unfolding KeepsWorld
    KeepsWorld-bind (ok a) f k = k a refl
    KeepsWorld-bind refused f k = tt
    KeepsWorld-bind panic f k = tt
    KeepsWorld-bind stuck f k = tt

    finish-Keeps :
        (m : Outcome World) (answer : Reply Value)
        → KeepsWorld m
        → Keeps I (m >>= λ w. ok (answer, w))
    unfolding KeepsWorld Keeps
    finish-Keeps (ok w) answer k = k
    finish-Keeps refused answer k = tt
    finish-Keeps panic answer k = tt
    finish-Keeps stuck answer k = tt

    -- Removing a profile as it was read, whose bundle is among the names, keeps `I`.
    KeepsRemoving : List Str → Type 0
    KeepsRemoving names =
        (link : Link) (raw : Bytes) (p : PhoneProfile) (w : World)
        → parse S.plist raw ≡ ok p
        → matches S names p.bundle_id ≡ true
        → I w
        → I (S.remove link p.uuid w).1

    remove_each_keeps :
        (names : List Str)
        → KeepsRemoving names
        → (link : Link) (raws : List Bytes) (w : World) → I w
        → KeepsWorld (remove_each S link names raws w)
    unfolding remove_each KeepsWorld KeepsRemoving
    remove_each_keeps names removing link [] w h = h
    remove_each_keeps names removing link (raw ∷ raws) w h =
        KeepsWorld-bind (attempt (parse S.plist raw)) _ λ parsed found. elim (Option-cases parsed) [
          | inl e ↦ rw e (remove_each_keeps names removing link raws w h)
          | inr (p, e) ↦
              let read : parse S.plist raw ≡ ok p =
                attempt-some (parse S.plist raw) p (found ∙ ap ok e) in
              let w' = (S.remove link p.uuid w).1 in
              elim (Bool-cases (matches S names p.bundle_id)) [
                | inl yes' ↦
                    rw (e, yes')
                      (remove_each_keeps names removing link raws w'
                        (removing link raw p w read yes' h))
                | inr no' ↦ rw (e, no') (remove_each_keeps names removing link raws w h)
              ]
        ]

    module _ (copying : (link : Link) (w : World) → I w → I (S.copy_all link w).1) where
      remove_wanted-Keeps :
          (names : List Str)
          → KeepsRemoving names
          → (w : World) → I w
          → Keeps I (remove_wanted S names w)
      unfolding remove_wanted Keeps
      remove_wanted-Keeps [] removing w h = h
      remove_wanted-Keeps (n ∷ ns) removing w h =
          let linked = connecting w h in
          option_both (Keeps I) (S.connect_auto w).0 _ _ linked λ link.
            let copied = copying link (S.connect_auto w).1 linked in
            option_both (Keeps I) (S.copy_all link (S.connect_auto w).1).0 _ _ copied λ raws.
              finish-Keeps
                (remove_each S link (n ∷ ns) raws (S.copy_all link (S.connect_auto w).1).1)
                (simple (codes "RemoveProvisioningProfilesResponse"))
                (remove_each_keeps (n ∷ ns) removing link raws
                  (S.copy_all link (S.connect_auto w).1).1 copied)

      -- Where `parse` does not panic, `remove_profiles` does nothing to the phone but remove profiles whose
      -- bundle, in lower case, is that of a text in the list of the request: it keeps all that connecting,
      -- reading the profiles and such a removal keep.
      pub remove_profiles-Keeps :
          (req : Value)
          (removing : (link : Link) (raw : Bytes) (p : PhoneProfile) (w : World)
            → parse S.plist raw ≡ ok p
            → IsNamed S req p.bundle_id
            → I w
            → I (S.remove link p.uuid w).1)
          (w : World)
          → I w
          → Keeps I (remove_profiles S req w)
      unfolding remove_profiles KeepsRemoving
      remove_profiles-Keeps req removing w h =
          remove_wanted-Keeps (wanted S req)
            (λ link raw p v read m.
              removing link raw p v read (matches-IsNamed S req p.bundle_id m))
            w h
