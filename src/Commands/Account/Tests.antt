-- ===== src/Commands/Account/Tests.antt =====
-- A login with src/main.rs that does not store the password.
use alt_keeper.Base.Action.{pure, ok}
use alt_keeper.Commands.Account.{Terminal, cmd_login, is_yes}
use alt_keeper.Commands.Account.Consent.{cmd_login-Keeps, SaysYes}
use alt_keeper.Commands.Phone.{Machine}
use alt_keeper.Commands.Tests.{machine, room, Room}
use alt_keeper.Base.{◌⊎◌, some, inl, [], refl, ap, none, inr, ◌≡◌, Option, ◌∷◌, false}
use alt_keeper.Base.Text.{codes, str_eq, to_ascii_lowercase, lower_byte, Str, str_eq_iff}
use alt_keeper.Base.Trim.{trim}
use alt_keeper.Apple.Account.{save_account}
use alt_keeper.Apple.Team.{pick_team, choose_team}

-- The file of the account holds the password alone.
abbrev storing : Machine Room (Unit {0}) (Unit {0}) (Unit {0})
storing = record machine {
  accounts = record machine.accounts {
    to_vec_pretty = λ a. pure a.password;
    write_all = λ s w. (ok tt, record w { file = some s });
  };
}

-- The one who is asked agrees where a password is stored already.
abbrev reply : Option Str → Str
reply none = codes "no"
reply (some []) = codes "no"
reply (some (c ∷ s)) = codes "s"

abbrev terminal : Terminal Room
terminal = record {
  prompt_password = λ s. pure (codes "segreta");
  print = λ s w. w;
  flush = λ w. w;
  read_line = λ w. (reply w.file, w);
  to_lowercase = to_ascii_lowercase;
}

-- The file is not there, or it is empty.
abbrev HoldsNothing : Room → Type 0
HoldsNothing w = (w.file ≡ none) ⊎ (w.file ≡ some [])

other_word : (s : Str) → str_eq (codes "no") s ≡ false → codes "no" ≡ s → ⊥
other_word s other same = absurd (cc ((str_eq_iff (codes "no") s).1 same, other))

no_is_no : SaysYes (codes "no") → ⊥
unfolding str_eq
no_is_no (inl e) = other_word (codes "s") refl e
no_is_no (inr (inl e)) = other_word (codes "si") refl e
no_is_no (inr (inr (inl e))) = other_word (115 ∷ 195 ∷ 172 ∷ []) refl e
no_is_no (inr (inr (inr e))) = other_word (codes "y") refl e

cmd_login-Keeps_example : HoldsNothing (cmd_login storing terminal (some (codes "a@b.it")) room).1
unfolding is_yes str_eq lower_byte trim save_account pick_team choose_team
cmd_login-Keeps_example =
    cmd_login-Keeps storing terminal HoldsNothing (λ s w h. h) (λ s w h. h) (λ w h. h) (λ s w h. h)
      (λ w h. h) (λ on w h. h) (λ id password w h. h) (λ sess w h. h)
      (λ acc v h i. elim h [
        | inl nothing ↦ inr (ap some nothing)
        | inr agreed ↦ elim i [
          | inl none_yet ↦ absurd (no_is_no (rw none_yet at agreed))
          | inr empty ↦ absurd (no_is_no (rw empty at agreed))
        ]
      ])
      (some (codes "a@b.it")) room (inl refl)
