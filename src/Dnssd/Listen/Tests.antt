-- ===== src/Dnssd/Listen/Tests.antt =====
-- Runs of `start` of src/dnssd.rs.
use alt_keeper.Base.Action.{ok, err, pure, fail}
use alt_keeper.Base.Text.{Str, codes}
use alt_keeper.Dnssd.Zone.{Zone}
use alt_keeper.Dnssd.Listen.{Udp, start}
use alt_keeper.Phone.Address.{SocketAddr, v4, port_of}
use alt_keeper.Base.{◌≡◌, true, ◌∷◌, refl, ◌==◌, List, [], ℕ, false}

-- The lines that were shown, and the zones that a thread answers for.
abbrev udp : Udp (List Str × List Zone) ℕ
udp = record {
  bind = λ addr. elim (port_of addr == 53) [
    | true ↦ fail (codes "denied")
    | false ↦ pure (port_of addr)
  ];
  local_port = λ socket. pure socket;
  spawn = λ zone socket (lines, zones). (lines, zone ∷ zones);
  println = λ line (lines, zones). (line ∷ lines, zones);
  print_addr = λ a. codes "0.0.0.0:53";
  print_ip = λ ip. codes "10.7.0.1";
  print_u16 = λ n. codes "5533";
}

abbrev zone : Zone
zone = record {
  domain = codes "d";
  browse = codes "b";
  instance_name = codes "i";
  host = codes "h";
  server_id = codes "s";
  port = 5533;
  address = record { a = 10; b = 7; c = 0; d = 1 };
  clients = (record { a = 10; b = 7; c = 0; d = 1 }, 24);
}

abbrev anywhere_at : ℕ → SocketAddr
anywhere_at port = v4 (record { a = 0; b = 0; c = 0; d = 0 }) port

listens :
    start udp zone (anywhere_at 5533) ([], [])
    ≡ (ok 5533, (codes "[dns-sd] porta 5533: pubblico i -> 10.7.0.1:5533" ∷ [], zone ∷ []))
unfolding start
listens = refl

-- Without the socket nothing is shown and no thread begins.
no_socket :
    start udp zone (anywhere_at 53) ([], [])
    ≡ (err (codes "DNS: non riesco ad ascoltare su 0.0.0.0:53: denied"), ([], []))
unfolding start
no_socket = refl
