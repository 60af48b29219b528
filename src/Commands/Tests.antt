-- ===== src/Commands/Tests.antt =====
-- Runs of the commands of src/main.rs.
use alt_keeper.Base.Action.{Run, ok, err, pure}
use alt_keeper.Profile.Parse.{Plist, PhoneProfile}
use alt_keeper.Base.{
  ◌++◌, true, inr, inl, some, List, ◌∷◌, ◌≡◌, [], false, Option, none, ℕ, ◌⊎◌, if◌then◌else◌, refl,
}
use alt_keeper.Commands.Phone.{Machine}
use alt_keeper.Commands.Profiles.{Disk, cmd_profile_remove}
use alt_keeper.Apple.Account.{Account}
use alt_keeper.Commands.Renew.{cmd_renew}
use alt_keeper.Phone.Address.{Network, v4, linked}
use alt_keeper.Base.Bytes.{Bytes}
use alt_keeper.Base.Text.{Str, codes, str_eq}
use alt_keeper.Dnssd.Zone.{Ipv4Addr}
use alt_keeper.Profile.Latest.{pos}
use alt_keeper.Commands.Renew.DryRun.{cmd_renew_dry_run}
use alt_keeper.Base.Decimal.{decimal}
use alt_keeper.Commands.Profiles.Saved.{cmd_profile_remove-saved}

-- The profiles on a phone, and the one file that is written.
pub record Room : Type 0 where
  pub phone : List Bytes
  pub file : Option Bytes

abbrev raw : Bytes
raw = codes "<?xml</plist>"

abbrev pub room : Room
room = record { phone = raw ∷ []; file = none }

abbrev phone_network : Network Room (Unit {0})
phone_network = record {
  parse_addr = λ s. some (v4 (record { a = 10; b = 0; c = 0; d = 2 }) 49152);
  print_addr = λ a. codes "10.0.0.2";
  exists = λ path w. true;
  read_to_string = λ path w. some (codes "10.0.0.2");
  create_dir_all = λ path w. w;
  write = λ path s w. w;
  say = λ s w. w;
  browse = λ w. (none, w);
  local_ip = λ w. none;
  accepts = λ a w. false;
  connect = λ a path w. (linked tt, w);
}

-- Every profile has the UUID AB, the team T and the bundle b, and no date.
abbrev one_profile : Plist (Unit {0})
one_profile = record {
  from_reader = λ b. some tt;
  string_at = λ d k. if str_eq k (codes "UUID") then some (codes "AB") else some (codes "T.b");
  first_at = λ d k. some (codes "T");
  dictionary_at = λ d k. some tt;
  date_at = λ d k. none;
}

abbrev saved_account : Account
saved_account = record { apple_id = codes "a"; password = codes "p"; team_id = some (codes "T") }

abbrev pub machine : Machine Room (Unit {0}) (Unit {0}) (Unit {0})
machine = record {
  network = phone_network;
  accounts = record {
    read = λ w. some (codes "account");
    from_str = λ s. ok saved_account;
    to_vec_pretty = λ a. pure (codes "account");
    open_truncated = λ mode. pure tt;
    write_all = λ s. pure tt;
    set_permissions = λ mode. pure tt;
  };
  plist = one_profile;
  misagent = record {
    copy_all = λ link w. (ok w.phone, w);
    install = λ link b w. (ok tt, record w { phone = w.phone ++ b ∷ [] });
    remove = λ link uuid w. (ok tt, record w { phone = [] });
  };
  clock = record {
    now = λ w. 0;
    print_usize = decimal;
    print_i64 = λ z. codes "z";
    to_xml_format = λ d. codes "d";
  };
  developer = record {
    list_teams = λ sess. pure (record { name = none; team_id = codes "T" } ∷ []);
    list_app_ids = λ sess team.
        pure (record { identifier = codes "b"; name = codes "b"; expiration_date = none } ∷ []);
    download_team_provisioning_profile =
        λ sess team app. pure (record { date_expire = codes "d"; encoded_profile = raw });
    print = λ s w. w;
    read_line = λ w. ([], w);
    print_usize = decimal;
  };
  set_interactive = λ b w. w;
  open_session = λ id password. pure tt;
}

abbrev read_back : Option Bytes → Run Bytes
read_back none = err []
read_back (some b) = ok b

abbrev pub disk : Disk Room
disk = record {
  create_dir_all = λ path. pure tt;
  set_permissions = λ path mode. pure tt;
  write = λ path b w. (ok tt, record w { file = some b });
  read = λ path w. (read_back w.file, w);
}

abbrev HasOne : Room → Type 0
HasOne w = w.phone ≡ raw ∷ []

cmd_renew_dry_run_example : HasOne (cmd_renew machine none true true (pos 3) room).1
cmd_renew_dry_run_example =
    cmd_renew_dry_run machine HasOne (λ s w h. h) (λ b w h. h) (λ id password w h. h)
      (λ sess w h. h) (λ sess team w h. h) (λ addr path w h. h) (λ w h. h) (λ s w h. h)
      (λ s t w h. h) (λ link w h. h) none true (pos 3) room refl

-- The profile is on the phone, or a file was written.
abbrev IsSafe : Room → Type 0
IsSafe w = HasOne w ⊎ ((b : Bytes) × (w.file ≡ some b))

written : (o : Option Bytes) (b : Bytes) → read_back o ≡ ok b → o ≡ some b
written none b h = absurd (cc h)
written (some c) b h = cc h

cmd_profile_remove-saved_example :
    IsSafe (cmd_profile_remove machine disk none (some (codes "ab")) room).1
cmd_profile_remove-saved_example =
    cmd_profile_remove-saved machine disk IsSafe (codes "ab") (λ s w h. h)
      (λ link rs p found v w copied wanted read h. inr (found, written w.file found read))
      (λ addr path w h. h) (λ w h. h) (λ s w h. h) (λ s t w h. h) (λ link w h. h) (λ path w h. h)
      (λ path mode w h. h) (λ path bytes w h. inr (bytes, refl)) (λ path w h. h) none room
      (inl refl)

abbrev dated : ℕ → PhoneProfile
dated d = record {
  uuid = codes "AB";
  name = codes "app";
  team_id = some (codes "T");
  bundle_id = some (codes "b");
  expires = some d;
}

abbrev parse_ten : Str → Run Ipv4Addr
parse_ten s = ok (record { a = 10; b = 7; c = 0; d = 0 })

abbrev invalid : Str → Str
invalid s = codes "invalid digit"

-- A phone with no profile left, and a profile of the bundle that is over.
abbrev bare : Room
bare = record room { phone = [] }

-- The profile that Apple makes is on the phone.
abbrev HasNew : Room → Type 0
HasNew w = (before : List Bytes) × (after : List Bytes) × (w.phone ≡ before ++ raw ∷ after)

abbrev over : List PhoneProfile
over = dated 0 ∷ []
