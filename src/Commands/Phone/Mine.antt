-- ===== src/Commands/Phone/Mine.antt =====
-- The profiles of a team, as src/main.rs and src/web.rs select them.
use alt_keeper.Base.{
  some, ◌∷◌, inl, [], Option, inr, none, ap, ◌↔◌, ◌≡◌, false, List, sym, true, Bool-cases,
}
use alt_keeper.Commands.Phone.{is_of_team, mine_of}
use alt_keeper.Base.Text.{Str, str_eq, str_eq_iff}
use alt_keeper.Profile.Latest.Winners.{In}
use alt_keeper.Profile.Parse.{PhoneProfile}
use mathlib.Core.Path.{subst}

is_of_team_iff :
    (team : Str) (p : PhoneProfile) → (is_of_team team p ≡ true) ↔ (p.team_id ≡ some team)
unfolding is_of_team
is_of_team_iff team p = go p.team_id
  where
    go :
        (o : Option Str)
        → ((elim o [ none ↦ false | some t ↦ str_eq t team ]) ≡ true) ↔ (o ≡ some team)
    go none = (λ h. absurd (cc h), λ h. absurd (cc h))
    go (some t) = (λ h. ap some ((str_eq_iff t team).0 h), λ h. (str_eq_iff t team).1 (cc h))

pub In-mine_of :
    (team : Str) (ps : List PhoneProfile) (p : PhoneProfile)
    → In p (mine_of team ps) ↔ (In p ps × (p.team_id ≡ some team))
unfolding mine_of In
In-mine_of team [] p = (λ h. absurd h, λ (h, _). absurd h)
In-mine_of team (q ∷ ps) p =
    let (forth, back) = In-mine_of team ps p in
    elim (Bool-cases (is_of_team team q)) [
      | inl mine ↦ rw mine (
        λ h. elim h [
          | inl same ↦ (
            inl same,
            subst (λ (r : PhoneProfile). r.team_id ≡ some team) (sym same)
                ((is_of_team_iff team q).0 mine),
          )
          | inr k ↦ let (there, of_team) = forth k in (inr there, of_team)
        ],
        λ (h, of_team). elim h [ inl same ↦ inl same | inr there ↦ inr (back (there, of_team)) ],
      )
      | inr other ↦ rw other (
        λ k. let (there, of_team) = forth k in (inr there, of_team),
        λ (h, of_team). elim h [
          | inl same ↦ absurd (
              cc (
                (is_of_team_iff team q).1
                    (subst (λ (r : PhoneProfile). r.team_id ≡ some team) same of_team),
                other,
              ))
          | inr there ↦ back (there, of_team)
        ],
      )
    ]
