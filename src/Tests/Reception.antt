-- ===== src/Tests/Reception.antt =====
-- The theorem on the registration of a Dryad at concrete addresses.
use boruta.Common.{ℕ, ◌≡◌, refl, Option, none, some, List, [], ◌∷◌, Text, codes}
use boruta.Types.{TcpAddr, ok}
use boruta.Std.{Std}
use boruta.Workers.{get_worker_addr, get_worker_ssh_addr}
use boruta.Server.{Server}
use boruta.Server.Calls.{new_server}
use boruta.Server.Reception.{register_from, IsAddrText, register_from-get_worker_addr}
use boruta.Samples.{sample_std}

-- An address as its port and, if it has one, its IP.
abbrev resolve : Text → Option TcpAddr
resolve [] = none
resolve (port ∷ []) = some (record { ip = none; port = port })
resolve (port ∷ _ ∷ ip) = some (record { ip = some ip; port = port })

abbrev addr_text : TcpAddr → Text
addr_text a = elim a.ip [ none ↦ a.port ∷ [] | some ip ↦ a.port ∷ 0 ∷ ip ]

instance abbrev net_std : Std
net_std = record sample_std { resolve_tcp_addr = resolve }

addr_text-resolves : IsAddrText addr_text
addr_text-resolves a ip e = rw e refl

register_from-get_worker_addr_example :
    (t : Server) × (register_from addr_text
        (record { ip = some (codes "10.0.0.7") })
        ((codes "UUID", codes "w") ∷ [])
        (7175 ∷ [])
        (22 ∷ [])
        20
        (new_server 1000)
      ≡ ok t)
    × (get_worker_addr (codes "w") t.workers
        ≡ ok (record { ip = some (codes "10.0.0.7"); port = 7175 }))
    × (get_worker_ssh_addr (codes "w") t.workers
        ≡ ok (record { ip = some (codes "10.0.0.7"); port = 22 }))
unfolding boruta.Common.lookup boruta.Common.text_beq boruta.Server.Reception.get_tcp_addr
    new_server boruta.Workers.set_change_listener boruta.Workers.new_worker_list
    boruta.Server.Reception.fill_ip
register_from-get_worker_addr_example =
    register_from-get_worker_addr addr_text addr_text-resolves (codes "10.0.0.7")
      ((codes "UUID", codes "w") ∷ []) (7175 ∷ []) (22 ∷ []) (record { ip = none; port = 7175 })
      (record { ip = none; port = 22 }) (codes "w") 20 (new_server 1000) refl refl refl refl refl
      refl
