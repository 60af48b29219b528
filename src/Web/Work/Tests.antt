-- ===== src/Web/Work/Tests.antt =====
-- A run of `run_renew` of src/web.rs.
use alt_keeper.Web.Jobs.Reach.{initial}
use alt_keeper.Base.Trim.{trim}
use alt_keeper.Web.Work.{
  run_check, run_renew, Page, after_renew, in_time, finish_renew, Snapshot, check_phone,
  finish_check, update, local_time,
}
use alt_keeper.Profile.Latest.{pos}
use alt_keeper.Base.Action.{ok, pure}
use alt_keeper.Web.Jobs.{App, push_line}
use alt_keeper.Web.Work.Ends.{IsEnded, is_ok, run_renew-IsEnded}
use alt_keeper.Base.{some, [], none, ◌≡◌, false, ◌++◌, true, refl, length}
use alt_keeper.Commands.Phone.{Machine, open_phone}
use alt_keeper.Commands.Renew.{cmd_renew}
use alt_keeper.Base.Text.{Str, codes, to_ascii_lowercase}
use alt_keeper.Phone.Address.{timed_out}
use alt_keeper.Base.Decimal.{decimal}
use alt_keeper.Apple.Account.{load_account, require_password}
use alt_keeper.Phone.Connect.{connect_auto}
use alt_keeper.Web.Texts.{short_error, lines, strip_cr, first_line, take_chars}
use alt_keeper.Web.History.{log_of}

-- The page and the log of a computer with no pairing file.
record Desk : Type 0 where
  app : App
  snapshot : Snapshot
  log : Str

abbrev desk : Desk
desk = record {
  app = initial.app;
  snapshot = record {
    reachable = none;
    address = none;
    error = none;
    detail = none;
    profiles_total = 0;
    apps = [];
  };
  log = [];
}

abbrev machine : Machine Desk (Unit {0}) (Unit {0}) (Unit {0})
machine = record {
  network = record {
    parse_addr = λ s. none;
    print_addr = λ a. [];
    exists = λ path w. false;
    read_to_string = λ path w. none;
    create_dir_all = λ path w. w;
    write = λ path s w. w;
    say = λ s w. record w { app = push_line s w.app };
    browse = λ w. (none, w);
    local_ip = λ w. none;
    accepts = λ a w. false;
    connect = λ a path w. (timed_out, w);
  };
  accounts = record {
    read = λ w. some (codes "account");
    from_str =
        λ s. ok (record { apple_id = codes "a"; password = codes "p"; team_id = some (codes "T") });
    to_vec_pretty = λ a. pure [];
    open_truncated = λ mode. pure tt;
    write_all = λ s. pure tt;
    set_permissions = λ mode. pure tt;
  };
  plist = record {
    from_reader = λ b. none;
    string_at = λ d k. none;
    first_at = λ d k. none;
    dictionary_at = λ d k. none;
    date_at = λ d k. none;
  };
  misagent = record {
    copy_all = λ link. pure [];
    install = λ link b. pure tt;
    remove = λ link uuid. pure tt;
  };
  clock = record {
    now = λ w. 0;
    print_usize = decimal;
    print_i64 = λ z. [];
    to_xml_format = λ d. [];
  };
  developer = record {
    list_teams = λ sess. pure [];
    list_app_ids = λ sess team. pure [];
    download_team_provisioning_profile =
        λ sess team app. pure (record { date_expire = []; encoded_profile = [] });
    print = λ s w. w;
    read_line = λ w. ([], w);
    print_usize = decimal;
  };
  set_interactive = λ b w. w;
  open_session = λ id password. pure tt;
}

abbrev page : Page Desk (Unit {0})
page = record {
  app = λ w. w.app;
  set_app = λ a w. record w { app = a };
  snapshot = λ w. w.snapshot;
  set_snapshot = λ s w. record w { snapshot = s };
  within_45 = λ m w. (in_time (m w).0, (m w).1);
  open_session_web = λ id password. pure tt;
  now_secs = λ w. 0;
  date_output = λ w. some (true, codes "2026-01-01 12:00:00\n");
  print_u64 = decimal;
  append = λ s w. record w { log = w.log ++ s };
  phone = none;
  to_lowercase = to_ascii_lowercase;
}

-- The check ends for want of a pairing file, and leaves the page as it was.
checks : (w : Desk) → ((page.within_45 (check_phone machine page) w).1).app.job ≡ w.app.job
unfolding check_phone connect_auto
checks w = refl

run_renew-IsEnded_example :
    IsEnded page
      (λ job.
        (job.running ≡ false)
        × (job.ok ≡ some (is_ok (cmd_renew machine none false true (pos 3) desk).0)))
      (run_renew machine page true desk)
run_renew-IsEnded_example =
    run_renew-IsEnded machine page (λ a w. refl) (λ s w. refl) (λ s w. refl) checks true desk

-- The renewal fails for want of a pairing file, and its two lines are in the job view.
lines_of_failure : length (run_renew machine page true desk).1.app.job.lines ≡ 2
unfolding run_renew after_renew finish_renew run_check check_phone finish_check update cmd_renew
    load_account require_password connect_auto push_line short_error lines strip_cr first_line
    take_chars trim log_of open_phone
lines_of_failure = refl

-- Where `date` fails the log has the seconds.
without_date :
    local_time machine (record page { date_output = λ w. some (false, []) }) desk ≡ codes "epoch 0"
unfolding local_time decimal
without_date = refl
