-- ===== src/Altserver/Startup/Tests.antt =====
-- A start and a stop of the server of src/altserver.rs, on a host whose world is its two statics, what
-- is announced and the lines that were shown.
use alt_keeper.Base.Action.{ok, pure}
use alt_keeper.Altserver.Identity.{Host, server_id, saved_id}
use alt_keeper.Altserver.Startup.{Bonjour, ServiceInfo, start, stop, first_eight}
use alt_keeper.Altserver.Startup.Announced.{IsService, start-stop, TakesBack}
use alt_keeper.Altserver.Startup.Statics.{HasStatics, once}
use alt_keeper.Base.Text.{Str, codes}
use alt_keeper.Base.{[], ℕ, true, ◌≡◌, Option, some, Bool, refl, none, ◌∷◌, List}
use alt_keeper.Base.Utf8.{within}
use alt_keeper.Base.Trim.{trim}

record Statics : Type 0 where
  name : Option Str
  daemon : Option Bool
  announced : List Str
  shown : List Str

abbrev small_host : Host Statics
small_host = record {
  read_to_string = λ path w. some (codes "8e68e3c9e57288e9");
  random = λ n. pure [];
  create_dir_all = λ dir w. w;
  write = λ path text. pure tt;
  hostname_output = λ w. some (codes "casa2.local");
}

abbrev bonjour : Bonjour Statics ℕ
bonjour = record {
  host = small_host;
  bind = λ port. pure port;
  local_port = λ listener. pure listener;
  spawn_accept = λ listener phone w. w;
  daemon_cell = λ w. w.daemon;
  set_daemon = λ d w. record w { daemon = once w.daemon d };
  new_daemon = λ w. (true, w);
  fullname_cell = λ w. w.name;
  set_fullname = λ n w. record w { name = once w.name n };
  new_info = λ s. pure s;
  get_fullname = λ s. s.instance_name;
  register = λ s w. (ok tt, record w { announced = s.instance_name ∷ w.announced });
  unregister = λ n w. (true, record w { announced = [] });
  wait_unregistered = λ w. w;
  println = λ line w. record w { shown = line ∷ w.shown };
  print_u16 = λ n. codes "49500";
}

abbrev unused : Statics
unused = record { name = none; daemon = none; announced = []; shown = [] }

bonjour-HasStatics : HasStatics bonjour
bonjour-HasStatics = record {
  name_set = λ n w. refl;
  name_kept = λ d w. refl;
  daemon_set = λ d w. refl;
  daemon_kept = λ n w. refl;
  bind_at = λ n d p w h. h;
  local_port_at = λ n d l w h. h;
  random_at = λ n d w h. h;
  create_at = λ n d dir w h. h;
  write_at = λ n d path text w h. h;
  new_daemon_at = λ n d w h. h;
  new_info_at = λ n d s w h. h;
  register_at = λ n d s w h. h;
  println_at = λ n d line w h. h;
  spawn_at = λ n d l phone w h. h;
}

started : (start bonjour 49500 none unused).0 ≡ ok 49500
unfolding start first_eight server_id saved_id within trim
started = refl

start-stop_example :
    (id : Str) × (before : Statics) × ((server_id small_host before).0 ≡ ok id)
    × (service : ServiceInfo) × IsService bonjour 49500 id service
    × TakesBack bonjour service.instance_name
        (start bonjour 49500 none unused).1
        (stop bonjour (start bonjour 49500 none unused).1)
start-stop_example = start-stop bonjour bonjour-HasStatics 49500 49500 none unused refl started
