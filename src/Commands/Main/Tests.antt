-- ===== src/Commands/Main/Tests.antt =====
-- Runs of the command `serve` of src/main.rs.
use alt_keeper.Dnssd.Listen.{Udp}
use alt_keeper.Base.Action.{ok, err, pure, fail, Keeps, Keeps-bind, Keeps-or_fail, or_fail}
use alt_keeper.Commands.Main.{Program, cmd_serve, bind_of, pin_of, publisher}
use alt_keeper.Commands.Main.Guarded.{cmd_serve-Keeps, cmd_serve_refused, IsProtected}
use alt_keeper.Base.{
  ◌∷◌, refl, ◌≡◌, ◌≤◌, Option, ◌⊎◌, inl, ℕ, none, inr, some, ◌≢◌, [], true, List, option_both,
}
use alt_keeper.Commands.Tests.{machine, disk, room, Room}
use alt_keeper.Altserver.Startup.{Bonjour, start}
use alt_keeper.Commands.Arguments.{start_dnssd, publish, no_address, opt}
use alt_keeper.Web.Server.{WebServer, accept_options, options_text}
use alt_keeper.Web.Access.{pin_short, check_options}
use alt_keeper.Phone.Address.{SocketAddr, v4}
use alt_keeper.Profile.Latest.{pos}
use alt_keeper.Base.Text.{codes, Str, str_eq}
use alt_keeper.Base.Utf8.{count_chars, within}

abbrev address : SocketAddr
address = v4 (record { a = 10; b = 0; c = 0; d = 2 }) 8787

-- Its port is in use.
abbrev no_listener : Bonjour Room ℕ
no_listener = record {
  host = record {
    read_to_string = λ path w. none;
    random = λ n. pure [];
    create_dir_all = λ dir w. w;
    write = λ path text. pure tt;
    hostname_output = λ w. none;
  };
  bind = λ port. fail (codes "in use");
  local_port = λ listener. pure listener;
  spawn_accept = λ listener phone w. w;
  daemon_cell = λ w. none;
  set_daemon = λ d w. w;
  new_daemon = λ w. (true, w);
  fullname_cell = λ w. none;
  set_fullname = λ n w. w;
  new_info = λ s. pure s;
  get_fullname = λ s. s.instance_name;
  register = λ s. pure tt;
  unregister = λ n w. (true, w);
  wait_unregistered = λ w. w;
  println = λ line w. w;
  print_u16 = λ n. codes "49500";
}

-- A run of the page leaves its PIN in the file.
abbrev web : WebServer Room (Unit {0})
web = record {
  bind = λ bind. pure tt;
  run = λ socket router w. (ok tt, record w { file = router.pin });
  println = λ s w. w;
  print_addr = λ a. codes "10.0.0.2:8787";
}

-- The port of the names is in use.
abbrev no_socket : Udp Room (Unit {0})
no_socket = record {
  bind = λ addr. fail (codes "in use");
  local_port = λ socket. pure 5533;
  spawn = λ zone socket w. w;
  println = λ line w. w;
  print_addr = λ a. codes "0.0.0.0:5533";
  print_ip = λ ip. codes "10.0.0.2";
  print_u16 = λ n. codes "5533";
}

abbrev program : Program Room (Unit {0}) (Unit {0}) (Unit {0}) ℕ (Unit {0}) (Unit {0})
program = record {
  machine = machine;
  terminal = record {
    prompt_password = λ s. pure [];
    print = λ s w. w;
    flush = λ w. w;
    read_line = λ w. ([], w);
    to_lowercase = λ s. s;
  };
  disk = disk;
  bonjour = no_listener;
  udp = no_socket;
  web = web;
  pair_usb = λ file. pure tt;
  environment = λ w name. none;
  set_current_dir = λ dir. pure tt;
  parse_addr = λ s. ok address;
  parse_ip = λ s. err (codes "invalid");
  parse_i64 = λ s. ok (pos 3);
  why = λ s. codes "invalid digit";
  wait_for_signal = pure tt;
  version = codes "0";
}

-- The file is not there, or it holds a PIN that is long enough.
abbrev HoldsPin : Room → Type 0
HoldsPin w = (w.file ≡ none) ⊎ ((pin : Str) × (w.file ≡ some pin) × (4 ≤ count_chars pin))

starting : (port : ℕ) (phone : Option SocketAddr) → Keeps HoldsPin (start no_listener port phone)
unfolding start
starting port phone w h = h

publishing :
    (port : ℕ) (options : Str → Option Str)
    → Keeps HoldsPin (start_dnssd (publisher program) program.parse_ip program.why options port)
unfolding start_dnssd publish
publishing port options =
    option_both (Keeps HoldsPin) (options (codes "--dns-domain")) _ _ (λ w h. h)
      λ domain.
        Keeps-bind HoldsPin (or_fail no_address (options (codes "--dns-address"))) _
          (Keeps-or_fail HoldsPin no_address (options (codes "--dns-address"))) λ text w h. h

running :
    (bind : SocketAddr) (pin : Option Str)
    → IsProtected bind pin
    → (pin ≡ none) ⊎ ((p : Str) × (pin ≡ some p) × (4 ≤ count_chars p))
unfolding IsProtected
running bind none h = inl refl
running bind (some p) h = inr (p, refl, h)

abbrev arguments : List Str
arguments = codes "--bind" ∷ codes "10.0.0.2:8787" ∷ codes "--pin" ∷ codes "1234" ∷ []

cmd_serve-Keeps_example : HoldsPin (cmd_serve program arguments room).1
cmd_serve-Keeps_example =
    cmd_serve-Keeps program HoldsPin (λ dir w h. h) starting publishing (λ s w h. h)
      (λ bind pin p w h. h) (λ socket bind pin phone before bound p w h. running bind pin p)
      arguments room (inl refl)

abbrev short_pin : List Str
short_pin = codes "--bind" ∷ codes "10.0.0.2:8787" ∷ codes "--pin" ∷ codes "12" ∷ []

-- Nothing was written.
abbrev IsBare : Room → Type 0
IsBare w = w.file ≡ none

refuses : accept_options address (pin_of program short_pin room) ≡ err (options_text pin_short)
unfolding accept_options pin_of check_options opt str_eq count_chars within
refuses = refl

cmd_serve_refused_example :
    IsBare (cmd_serve program short_pin room).1
    × ((u : Unit {0}) → (cmd_serve program short_pin room).0 ≢ ok u)
unfolding bind_of
cmd_serve_refused_example =
    cmd_serve_refused program IsBare (λ dir w h. h) short_pin address room (options_text pin_short)
      refl refuses refl
