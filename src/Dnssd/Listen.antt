-- ===== src/Dnssd/Listen.antt =====
-- `start` of src/dnssd.rs: the socket, and the thread that answers on it.
mod Tests
use alt_keeper.Base.Action.{Action, pure, effect, context, ◌>>=◌, ◌>>◌}
use alt_keeper.Base.Text.{Str, codes}
use alt_keeper.Dnssd.Zone.{Zone, Ipv4Addr}
use alt_keeper.Phone.Address.{SocketAddr}
use alt_keeper.Base.{ℕ, ◌++◌}

-- What `start` uses of the system. `spawn` leaves the loop of Dnssd.Message to a thread.
pub record Udp (World Socket : Type 0) : Type 0 where
  pub bind : SocketAddr → Action World Socket
  pub local_port : Socket → Action World ℕ
  pub spawn : Zone → Socket → World → World
  pub println : Str → World → World
  pub print_addr : SocketAddr → Str
  pub print_ip : Ipv4Addr → Str
  pub print_u16 : ℕ → Str

module _ {World Socket : Type 0} (U : Udp World Socket) where
  abbrev pub published_line : Zone → ℕ → Str
  published_line zone port =
      codes "[dns-sd] porta "
      ++ (U.print_u16 port
          ++ (codes ": pubblico "
              ++ (zone.instance_name
                  ++ (codes " -> "
                      ++ (U.print_ip zone.address ++ (codes ":" ++ U.print_u16 zone.port))))))

  unfoldable pub start : Zone → SocketAddr → Action World ℕ
  start zone bind = do
    socket ←
        context (codes "DNS: non riesco ad ascoltare su " ++ (U.print_addr bind ++ codes ": "))
          (U.bind bind)
    port ← U.local_port socket
    effect (U.println (published_line zone port))
    effect (U.spawn zone socket)
    pure port
