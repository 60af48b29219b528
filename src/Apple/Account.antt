-- ===== src/Apple/Account.antt =====
-- The account file of src/apple.rs and the address of the anisette server.
use alt_keeper.Base.Action.{Run, Action, ok, err, ◌>>=◌, ◌>>◌}
use alt_keeper.Base.{
  some, false, Bool, true, ◌||◌, ◌^◌, ℕ, if◌then◌else◌, ◌*◌, Option, ◌==◌, [], ◌&&◌, none, ◌∷◌,
}
use alt_keeper.Base.Text.{Str, strip_prefix, is_empty, codes}
use alt_keeper.Base.Trim.{trim}

pub record Account : Type 0 where
  pub apple_id : Str
  pub password : Str
  pub team_id : Option Str

-- `account.json` in the working directory and the form of an account in it. The mode of a file is
-- given in octal digits.
pub record Accounts (World : Type 0) : Type 0 where
  pub read : World → Option Str
  -- The text, or the error, of `serde_json::from_str`.
  pub from_str : Str → Run Account
  pub to_vec_pretty : Account → Action World Str
  -- `OpenOptions` with `write`, `create`, `truncate` and a mode.
  pub open_truncated : ℕ → Action World (Unit {0})
  pub write_all : Str → Action World (Unit {0})
  pub set_permissions : ℕ → Action World (Unit {0})

abbrev pub private_mode : ℕ
private_mode = 6 * 8 ^ 2

abbrev pub no_account : Str
no_account = codes "manca account.json: esegui prima `altkeeper login <apple-id>`"

abbrev pub no_password : Str
no_password = codes "password non salvata: rifai `altkeeper login` e scegli di salvarla"

unfoldable pub require_password : Account → Run Account
require_password acc = if is_empty acc.password then err no_password else ok acc

abbrev pub then_require : Run Account → Run Account
then_require (ok acc) = require_password acc
then_require (err e) = err e
then_require Run.panic = Run.panic
then_require Run.stuck = Run.stuck

module _ {World : Type 0} (F : Accounts World) where
  -- `load_account`
  unfoldable pub load_account : Action World Account
  unfolding require_password
  load_account w = elim (F.read w) [
    | none ↦ (err no_account, w)
    | some raw ↦ (then_require (F.from_str raw), w)
  ]

  abbrev pub account_or_none : Run Account → Option Account
  account_or_none (ok acc) = some acc
  account_or_none (err e) = none
  account_or_none Run.panic = none
  account_or_none Run.stuck = none

  -- `read_account`
  unfoldable pub read_account : World → Option Account
  read_account w = elim (F.read w) [ none ↦ none | some raw ↦ account_or_none (F.from_str raw) ]

  -- `save_account`
  unfoldable pub save_account : Account → Action World (Unit {0})
  save_account acc = do
    text ← F.to_vec_pretty acc
    F.open_truncated private_mode
    F.write_all text
    F.set_permissions private_mode

-- `trim_end_matches(c)`
unfoldable pub trim_end : ℕ → Str → Str
trim_end c [] = []
trim_end c (x ∷ s) = let rest = trim_end c s in if x == c && is_empty rest then [] else x ∷ rest

abbrev pub has_prefix : Str → Str → Bool
has_prefix p s = elim (strip_prefix p s) [ none ↦ false | some _ ↦ true ]

abbrev pub bad_url : Str
bad_url = codes "ALTKEEPER_ANISETTE_URL deve iniziare con http:// o https://"

-- The two last arms of the match of `anisette_url`, for a value that is not empty once trimmed.
unfoldable pub checked_url : Str → Run (Option Str)
unfolding trim_end
checked_url u =
    if has_prefix (codes "https://") u || has_prefix (codes "http://") u
    then ok (some (trim_end b'/' u))
    else err bad_url

unfoldable pub anisette_url : Option Str → Run (Option Str)
unfolding checked_url
anisette_url none = ok none
anisette_url (some value) = if is_empty (trim value) then ok none else checked_url (trim value)
