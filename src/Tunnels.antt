-- ===== src/Tunnels.antt =====
-- tunnels/tunnels.go: the life of a tunnel; the data that it forwards is not modelled. `listened` is
-- what net.ListenTCP gives, an address or an error. A second Close closes a closed channel.
use boruta.Common.{Bool, true, false, Option, none, some, if◌then◌else◌}
use boruta.Types.{TcpAddr, Result, ok, err, panic, external}

pub record Tunnel : Type 0 where
  pub listener : TcpAddr
  pub dest : TcpAddr
  pub is_closed : Bool

unfoldable pub create_tunnel : Option TcpAddr → TcpAddr → Result Tunnel
create_tunnel none dest = err external
create_tunnel (some addr) dest = ok (record { listener = addr; dest = dest; is_closed = false })

unfoldable pub close_tunnel : Tunnel → Result Tunnel
close_tunnel t = if t.is_closed then panic else ok (record t { is_closed = true })

unfoldable pub tunnel_addr : Tunnel → TcpAddr
tunnel_addr t = t.listener
