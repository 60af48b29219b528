-- ===== src/Commands/Account/Consent.antt =====
-- When `cmd_login` of src/main.rs stores a password.
use alt_keeper.Base.Action.{or_fail, Keeps, Keeps-bind, Keeps-or_fail, keeps_then}
use alt_keeper.Commands.Account.{
  Terminal, cmd_login, login_with, welcome, save_login, is_yes, login_usage, save_question,
}
use alt_keeper.Commands.Phone.{Machine}
use alt_keeper.Base.{
  ◌≡◌, [], none, Option, true, ◌⊎◌, Bool, false, inr, refl, inl, if◌then◌else◌, if_both, arith, ◌∷◌,
}
use alt_keeper.Base.Text.{Str, is_empty, codes, str_eq_iff}
use alt_keeper.Apple.Team.{pick_team, Team}
use alt_keeper.Base.Trim.{trim}
use alt_keeper.Apple.Account.{Account, save_account}

-- The words that are a yes: `s`, `si`, `sì` and `y`.
abbrev pub SaysYes : Str → Type 0
SaysYes s = (s ≡ codes "s") ⊎ ((s ≡ codes "si") ⊎ ((s ≡ 115 ∷ 195 ∷ 172 ∷ []) ⊎ (s ≡ codes "y")))

is_yes-SaysYes : (s : Str) → is_yes s ≡ true → SaysYes s
unfolding is_yes
is_yes-SaysYes s h = ground (
  arith,
  str_eq_iff s (codes "s"),
  str_eq_iff s (codes "si"),
  str_eq_iff s (115 ∷ 195 ∷ 172 ∷ []),
  str_eq_iff s (codes "y"),
)

module _ {World Link Dict Session : Type 0} (M : Machine World Link Dict Session)
    (T : Terminal World) (I : World → Type 0) where
  -- The line that was read says yes, in letters of whatever case.
  abbrev pub Consents : Str → Type 0
  Consents line = SaysYes (T.to_lowercase (trim line))

  -- Whatever holds before `cmd_login`, and is kept by every call but the write of an account with a
  -- password where the line just read at the question does not say yes, holds after it: a password is
  -- stored only for those who agree, also where the command ends with an error. The account is written
  -- in the world that the reading of that line leaves.
  pub cmd_login-Keeps :
      ((s : Str) (w : World) → I w → I (M.network.say s w))
      → ((s : Str) (w : World) → I w → I (T.print s w))
      → ((w : World) → I w → I (T.flush w))
      → ((s : Str) → Keeps I (T.prompt_password s))
      → ((w : World) → I w → I (T.read_line w).1)
      → ((on : Bool) (w : World) → I w → I (M.set_interactive on w))
      → ((id password : Str) → Keeps I (M.open_session id password))
      → ((sess : Session) → Keeps I (pick_team M.developer sess none true))
      → ((acc : Account) (v : World)
          → let asked = T.read_line (T.flush (T.print save_question v)) in
            (acc.password ≡ []) ⊎ Consents asked.0
            → I asked.1
            → I (save_account M.accounts acc asked.1).1)
      → (given : Option Str) → Keeps I (cmd_login M T given)
  unfolding cmd_login login_with welcome save_login
  cmd_login-Keeps saying printing flushing prompting reading setting opening picking saving given =
      Keeps-bind I (or_fail login_usage given) _ (Keeps-or_fail I login_usage given) λ id.
        Keeps-bind I (T.prompt_password _) _ (prompting _) λ typed. with_password id (trim typed)
    where
      line : World → Str × World
      line v = T.read_line (T.flush (T.print save_question v))

      stored :
          (id password : Str) (team : Team) (v : World)
          → I (line v).1
          → I (save_login M T id password team (line v).0 (line v).1).1
      stored id password team v h =
          keeps_then I (save_account M.accounts _ (line v).1).0 _ _ (λ _. saying _)
            (saving _ v (agreed (is_yes (T.to_lowercase (trim (line v).0))) refl) h)
        where
          agreed :
              (b : Bool)
              → is_yes (T.to_lowercase (trim (line v).0)) ≡ b
              → ((if b then password else []) ≡ []) ⊎ Consents (line v).0
          agreed true e = inr (is_yes-SaysYes _ e)
          agreed false e = inl refl

      with_password : (id password : Str) → Keeps I (login_with M T id password)
      with_password id password =
          if_both (Keeps I) (is_empty password) _ _ (λ w h. h)
            λ w h.
              keeps_then I (M.open_session id password (M.set_interactive true w)).0 _ _
                (λ sess.
                  Keeps-bind I (pick_team M.developer sess none true) _ (picking sess) λ team v k.
                    stored id password team (M.network.say _ v)
                      (reading _ (flushing _ (printing _ _ (saying _ v k)))))
                (opening id password _ (setting true w h))
