-- ===== src/Phone/Tests.antt =====
-- Runs of src/phone.rs.
use alt_keeper.Base.Action.{ok}
use alt_keeper.Phone.Connect.Order.{IsOnce, connect_auto-IsOnce}
use alt_keeper.Base.{
  refl, ◌≡◌, ◌++◌, ◌∷◌, some, Option, ◌==◌, true, [], ℕ, if◌then◌else◌, List, ◌||◌, none, ap,
}
use alt_keeper.Phone.Address.{
  Network, SocketAddr, v4, resolved, v6, other, linked, timed_out, read_last_addr, last_addr_file,
  contains_addr, addr_eq, write_last_addr,
}
use alt_keeper.Phone.Connect.{connect_auto, known_addrs, try_found, retain_new}
use alt_keeper.Dnssd.Zone.{Ipv4Addr}
use alt_keeper.Base.Text.{Str, codes, str_eq}
use alt_keeper.Phone.Connect.Remember.{connect_auto-read_last_addr}
use alt_keeper.Base.Trim.{trim}
use alt_keeper.Phone.Discover.{discover, discover_loop, scan_lan, subnet_hosts}

-- Version 4 addresses as one number and a port, written in decimal after a letter each.
abbrev lan : ℕ → SocketAddr
lan h = v4 (record { a = 192; b = 168; c = 1; d = h }) 49152

-- A text of one byte stands for the last byte of an address of the local network.
abbrev byte_of : SocketAddr → ℕ
byte_of (v4 ip port) = ip.d
byte_of (v6 groups port flow scope) = 0

-- The file of the last address, and the addresses at which a connection was tried.
record Desk : Type 0 where
  file : Option Str
  log : List SocketAddr

-- The phone is at 192.168.1.67: Bonjour names 66 twice, and the scan finds 66 and 67.
abbrev network : Network Desk (Unit {0})
network = record {
  parse_addr = λ s. elim s [ [] ↦ none | c ∷ cs ↦ some (lan c) ];
  print_addr = λ a. byte_of a ∷ [];
  exists = λ path w. true;
  read_to_string = λ path w. w.file;
  create_dir_all = λ path w. w;
  write = λ path s w. record w { file = some s };
  say = λ s w. w;
  browse = λ w. (some (resolved 100 (five ∷ five ∷ []) 49152 ∷ other 200 ∷ []), w);
  local_ip = λ w. some (record { a = 192; b = 168; c = 1; d = 63 });
  accepts = λ a w. byte_of a == 66 || byte_of a == 67;
  connect = λ a path w.
      (if byte_of a == 67 then linked tt else timed_out, record w { log = w.log ++ a ∷ [] });
}
  where
    five : Ipv4Addr
    five = record { a = 192; b = 168; c = 1; d = 66 }

abbrev desk : Desk
desk = record { file = some (65 ∷ []); log = [] }

-- The last address does not answer, nor does 66, which is tried once.
finds_phone :
    connect_auto network none (codes "rp-pairing.plist") desk
    ≡ (ok (lan 67, tt), record { file = some (67 ∷ []); log = lan 65 ∷ lan 66 ∷ lan 67 ∷ [] })
unfolding connect_auto known_addrs read_last_addr trim try_found retain_new discover discover_loop
    contains_addr addr_eq str_eq scan_lan subnet_hosts write_last_addr
finds_phone = refl

abbrev Logged : List SocketAddr → Desk → Type 0
Logged log w = w.log ≡ log

connect_auto-IsOnce_example :
    IsOnce Logged (connect_auto network none (codes "rp-pairing.plist") desk)
connect_auto-IsOnce_example =
    connect_auto-IsOnce network (codes "rp-pairing.plist") Logged
      (λ log addr w h. ap (λ l. l ++ addr ∷ []) h) (λ log s w h. h) (λ log w h. h) (λ log s w h. h)
      (λ log s t w h. h) none desk refl

connect_auto-read_last_addr_example :
    (read_last_addr network last_addr_file
        (record { file = some (67 ∷ []); log = lan 65 ∷ lan 66 ∷ lan 67 ∷ [] })
      ≡ some (lan 67))
    × (known_addrs none (
          read_last_addr network last_addr_file
            (record { file = some (67 ∷ []); log = lan 65 ∷ lan 66 ∷ lan 67 ∷ [] }))
        ≡ lan 67 ∷ [])
unfolding trim
connect_auto-read_last_addr_example =
    connect_auto-read_last_addr network (codes "rp-pairing.plist") (λ p s w. refl) none desk
      (record { file = some (67 ∷ []); log = lan 65 ∷ lan 66 ∷ lan 67 ∷ [] }) (lan 67) tt refl
      finds_phone
