-- ===== src/Commands/Renew/Installed.antt =====
-- The loop of `cmd_renew` of src/main.rs gives each bundle that is due, and has an App ID, a new profile.
use alt_keeper.Base.Action.{Run, Action, ok, pure, then_ok, Keeps, Keeps-bind, Keeps-pure, ◌>>◌}
use alt_keeper.Commands.Renew.{find_app, renew_app, renew_one, renew_loop, install_new, with_days}
use alt_keeper.Commands.Renew.Due.{IsDue}
use alt_keeper.Commands.Phone.{Machine, say}
use alt_keeper.Apple.Team.{Team, AppId, Download, download_profile}
use alt_keeper.Base.{
  some, ◌∷◌, ◌+◌, inl, ℕ, sym, [], false, List, inr, ◌≡◌, ◌++◌, Bool-cases, option_both,
}
use alt_keeper.Base.Text.{Str, codes, str_eq, str_eq_iff}
use alt_keeper.Base.Bytes.{Bytes}
use alt_keeper.Profile.Latest.{ℤ}
use mathlib.Core.Path.{subst}

find_app_found :
    (b : Str) (ids : List AppId) (app : AppId) → find_app b ids ≡ some app → app.identifier ≡ b
unfolding find_app
find_app_found b [] app e = absurd (cc e)
find_app_found b (a ∷ as') app e = elim (Bool-cases (str_eq a.identifier b)) [
  | inl same ↦
      let this : a ≡ app = cc (rw (same, find_app) at e) in
      subst (λ (x : AppId). x.identifier ≡ b) this ((str_eq_iff a.identifier b).0 same)
  | inr other ↦ find_app_found b as' app (rw (other, find_app) at e)
]

-- `Done` says of the world that the bundle `b` has a new profile: the installation of a profile that
-- Apple has just made for its App ID brings this about, and no call of the renewal undoes it.
module _ {World Link Dict Session : Type 0} (M : Machine World Link Dict Session) (b : Str)
    (Done : World → Type 0) (saying : (s : Str) (w : World) → Done w → Done (M.network.say s w))
    (downloading : (sess : Session) (team : Team) (app : AppId)
      → Keeps Done (download_profile M.developer sess team app))
    (installing : (link : Link) (bytes : Bytes) → Keeps Done (M.misagent.install link bytes))
    (renewing : (sess : Session) (team : Team) (app : AppId) (new : Download) (link : Link)
        (v v' : World)
      → app.identifier ≡ b
      → (download_profile M.developer sess team app v).0 ≡ ok new
      → (M.misagent.install link new.encoded_profile v').0 ≡ ok tt
      → Done (M.misagent.install link new.encoded_profile v').1) where
  install_new-Keeps : (link : Link) (new : Download) → Keeps Done (install_new M link new)
  unfolding install_new
  install_new-Keeps link new w h =
      Keeps-bind Done (M.misagent.install link new.encoded_profile) _
        (installing link new.encoded_profile) (λ _ v k. saying _ v k) _ (saying _ w h)

  renew_one-Keeps :
      (sess : Session) (link : Link) (team : Team) (ids : List AppId) (d : Str × ℤ)
      → Keeps Done (renew_one M sess link team ids false d)
  unfolding renew_one renew_app
  renew_one-Keeps sess link team ids (c, days) =
      option_both (Keeps Done) (find_app c ids) _ _ (saying _) λ app w h.
        Keeps-bind Done (download_profile M.developer sess team app) _ (downloading sess team app)
          (install_new-Keeps link) _ (saying _ w h)

  renew_loop-Keeps :
      (sess : Session) (link : Link) (team : Team) (ids : List AppId) (done : ℕ)
      (due : List (Str × ℤ))
      → Keeps Done (renew_loop M sess link team ids false done due)
  unfolding renew_loop
  renew_loop-Keeps sess link team ids done [] = Keeps-pure Done done
  renew_loop-Keeps sess link team ids done (d ∷ due) =
      Keeps-bind Done (renew_one M sess link team ids false d) _
        (renew_one-Keeps sess link team ids d)
        λ n. renew_loop-Keeps sess link team ids (done + n) due

  install_new-Done :
      (sess : Session) (team : Team) (app : AppId) (new : Download) (link : Link) (v w : World)
      {n : ℕ}
      → app.identifier ≡ b
      → (download_profile M.developer sess team app v).0 ≡ ok new
      → (install_new M link new w).0 ≡ ok n
      → Done (install_new M link new w).1
  unfolding install_new
  install_new-Done sess team app new link v w ours made e =
      let w' = M.network.say (codes "      nuovo profilo valido fino al " ++ new.date_expire) w in
      let rest : Unit {0} → Action World ℕ =
        λ _. say M (codes "      installed on the phone") >> pure 1 in
      let (_, installed, _, same) =
        then_ok (M.misagent.install link new.encoded_profile) rest w' e in
      subst (λ (r : Run ℕ × World). Done r.1) (sym same)
        (saying _ _ (renewing sess team app new link v w' ours made installed))

  renew_app-Done :
      (sess : Session) (link : Link) (team : Team) (app : AppId) (days : ℤ) (w : World) {n : ℕ}
      → app.identifier ≡ b
      → (renew_app M sess link team false b days app w).0 ≡ ok n
      → Done (renew_app M sess link team false b days app w).1
  unfolding renew_app
  renew_app-Done sess link team app days w ours e =
      let w' = M.network.say (with_days M b days (codes " days, downloading a new profile...")) w in
      let (new, made, e1, same) =
        then_ok (download_profile M.developer sess team app) (install_new M link) w' e in
      subst (λ (r : Run ℕ × World). Done r.1) (sym same)
        (install_new-Done sess team app new link w' _ ours made e1)

  renew_one-Done :
      (sess : Session) (link : Link) (team : Team) (ids : List AppId) (app : AppId) (days : ℤ)
      (w : World) {n : ℕ}
      → find_app b ids ≡ some app
      → (renew_one M sess link team ids false (b, days) w).0 ≡ ok n
      → Done (renew_one M sess link team ids false (b, days) w).1
  unfolding renew_one
  renew_one-Done sess link team ids app days w found e =
      rw (found, renew_one)
        (renew_app-Done sess link team app days w (find_app_found b ids app found)
          (rw (found, renew_one) at e))

  pub renew_loop-Done :
      (sess : Session) (link : Link) (team : Team) (ids : List AppId) (app : AppId) (done : ℕ)
      (due : List (Str × ℤ)) (w : World) {n : ℕ}
      → find_app b ids ≡ some app
      → IsDue b due
      → (renew_loop M sess link team ids false done due w).0 ≡ ok n
      → Done (renew_loop M sess link team ids false done due w).1
  unfolding renew_loop IsDue
  renew_loop-Done sess link team ids app done [] w found h e = absurd h
  renew_loop-Done sess link team ids app done ((c, days) ∷ due) w found h e =
      let rest : ℕ → Action World ℕ = λ k. renew_loop M sess link team ids false (done + k) due in
      let (k, one, e1, same) = then_ok (renew_one M sess link team ids false (c, days)) rest w e in
      let v = (renew_one M sess link team ids false (c, days) w).1 in
      subst (λ (r : Run ℕ × World). Done r.1) (sym same)
        (elim h [
          | inl first ↦ renew_loop-Keeps sess link team ids (done + k) due v (
              subst
                (λ x.
                  (renew_one M sess link team ids false (x, days) w).0 ≡ ok k
                  → Done (renew_one M sess link team ids false (x, days) w).1)
                first (renew_one-Done sess link team ids app days w found) one)
          | inr later ↦ renew_loop-Done sess link team ids app (done + k) due v found later e1
        ])
