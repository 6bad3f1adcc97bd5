-- ===== src/Server/Reception.antt =====
-- rpc/superviser/reception.go: the server's end of the calls of a Dryad. Each connection has an
-- `addressBook` with the IP of its client, which stands in for an IP that Register is not given. A
-- connection and the listener are net's and net/rpc's; an error about an address stands as `external`.
use boruta.Common.{
  ◌≡◌, refl, sym, ap, ◌∙◌, false, Option, none, some, [], Text, codes, text_eq, nat_eq, ◌==◌,
  lookup, lookup-insert, beq_refl, Option-cases, inl, inr,
}
use boruta.Types.{
  WorkerUuid, Time, TcpAddr, Capabilities, Result, ok, ◌>>=◌, ◌>>◌, fail_if, or_fail, external,
}
use boruta.Std.{Std}
use boruta.Workers.{get_worker_ssh_addr, get_worker_addr, find_worker, store_worker}
use boruta.Server.{Server}
use boruta.Server.Api.{check_addr, register, register_locked, set_fail, new_worker}

-- addressBook: the IP of the client; the Superviser that it hands on to is the server.
pub record AddressBook : Type 0 where
  pub ip : Option Text

-- `if addr.IP == nil { addr.IP = ab.ip }`
unfoldable pub fill_ip : Option Text → TcpAddr → TcpAddr
fill_ip client addr = elim addr.ip [ none ↦ record addr { ip = client } | some ip ↦ addr ]

module _ ⦃std : Std⦄ where
  unfoldable pub get_tcp_addr : Text → Result TcpAddr
  get_tcp_addr str = do fail_if (str == []) external; or_fail (std.resolve_tcp_addr str) external

  -- `addr_text` is the method String of net.TCPAddr.
  module _ (addr_text : TcpAddr → Text) where
    unfoldable pub register_from :
        AddressBook → Capabilities → Text → Text → Time → Server → Result Server
    unfolding get_tcp_addr fill_ip register
    register_from book caps dryad_address ssh_address now s = do
      dryad ← get_tcp_addr dryad_address
      sshd ← get_tcp_addr ssh_address
      register caps (addr_text (fill_ip book.ip dryad)) (addr_text (fill_ip book.ip sshd)) now s

  unfoldable pub set_fail_from : AddressBook → WorkerUuid → Text → Time → Server → Result Server
  unfolding set_fail
  set_fail_from book uuid reason now s = set_fail uuid now s

-- What net documents of the text of an address with an IP: it resolves to the address.
abbrev pub IsAddrText : ⦃std : Std⦄ → (TcpAddr → Text) → Type 0
IsAddrText ⦃std⦄ addr_text =
    (a : TcpAddr) (ip : Text) → a.ip ≡ some ip → std.resolve_tcp_addr (addr_text a) ≡ some a

-- The IP of an address, or else that of the client.
abbrev pub ip_or : Text → Option Text → Text
ip_or client none = client
ip_or client (some ip) = ip

fill_ip-some :
    (client : Text) (a : TcpAddr) → (fill_ip (some client) a).ip ≡ some (ip_or client a.ip)
unfolding fill_ip
fill_ip-some client a = elim (Option-cases a.ip) [
  | inl e ↦ rw (e, fill_ip) refl
  | inr (ip, e) ↦ rw (e, fill_ip) e
]

-- An address with the IP of the client for one that is missing.
abbrev pub filled : Text → TcpAddr → TcpAddr
filled client a = record a { ip = some (ip_or client a.ip) }

fill_ip-filled : (client : Text) (a : TcpAddr) → fill_ip (some client) a ≡ filled client a
unfolding fill_ip
fill_ip-filled client a = elim (Option-cases a.ip) [
  | inl e ↦ rw (e, fill_ip) refl
  | inr (ip, e) ↦
      ap (λ o. fill_ip (some client) (record a { ip = o })) e
      ∙ ap (λ o. filled client (record a { ip = o })) (sym e)
]

fill_ip-port : (client : Option Text) (a : TcpAddr) → (fill_ip client a).port ≡ a.port
unfolding fill_ip
fill_ip-port client a = elim (Option-cases a.ip) [
  | inl e ↦ rw (e, fill_ip) refl
  | inr (ip, e) ↦ rw (e, fill_ip) refl
]

module _ ⦃std : Std⦄ (addr_text : TcpAddr → Text) (resolves : IsAddrText addr_text)
    (client : Text) where
  check_filled :
      (a : TcpAddr)
      → (a.port == 0) ≡ false
      → check_addr (std.resolve_tcp_addr (addr_text (fill_ip (some client) a)))
        ≡ ok (fill_ip (some client) a)
  unfolding check_addr
  check_filled a h =
      let with_ip = fill_ip-some client a in
      rw
        (
          resolves (fill_ip (some client) a) (ip_or client a.ip) with_ip,
          with_ip,
          fill_ip-port (some client) a,
          h,
        )
        refl

  register_from-register_locked :
      (caps : Capabilities) (dryad_text ssh_text : Text) (dryad sshd : TcpAddr) (uuid : WorkerUuid)
      (now : Time) (s : Server)
      → lookup (codes "UUID") caps ≡ some uuid
      → get_tcp_addr dryad_text ≡ ok dryad
      → get_tcp_addr ssh_text ≡ ok sshd
      → (dryad.port == 0) ≡ false
      → (sshd.port == 0) ≡ false
      → register_from addr_text (record { ip = some client }) caps dryad_text ssh_text now s
        ≡ register_locked uuid caps (fill_ip (some client) dryad) (fill_ip (some client) sshd) now s
  unfolding register_from register
  register_from-register_locked caps dryad_text ssh_text dryad sshd uuid now s eu ed es pd ps =
      rw (ed, register_from, es, register, eu, check_filled dryad pd, check_filled sshd ps) refl

  -- If the text of an address that has an IP resolves to that address, the capabilities name a
  -- UUID that is not yet known, and the two addresses given resolve, with ports other than 0, then
  -- a Register that reaches the server from a client returns, and the addresses of the new worker
  -- are those given, with the IP of the client for an IP that is missing.
  pub register_from-get_worker_addr :
      (caps : Capabilities) (dryad_text ssh_text : Text) (dryad sshd : TcpAddr) (uuid : WorkerUuid)
      (now : Time) (s : Server)
      → lookup (codes "UUID") caps ≡ some uuid
      → get_tcp_addr dryad_text ≡ ok dryad
      → get_tcp_addr ssh_text ≡ ok sshd
      → (dryad.port == 0) ≡ false
      → (sshd.port == 0) ≡ false
      → lookup uuid s.workers.workers ≡ none
      → (t : Server) × (register_from addr_text
            (record { ip = some client })
            caps
            dryad_text
            ssh_text
            now
            s
          ≡ ok t)
        × (get_worker_addr uuid t.workers ≡ ok (filled client dryad))
        × (get_worker_ssh_addr uuid t.workers ≡ ok (filled client sshd))
  unfolding register_locked get_worker_addr get_worker_ssh_addr find_worker store_worker
  register_from-get_worker_addr caps dryad_text ssh_text dryad sshd uuid now s eu ed es pd ps new =
      let a = fill_ip (some client) dryad in
      let b = fill_ip (some client) sshd in
      let w = new_worker uuid caps a b in
      (
        record s { workers = store_worker uuid w s.workers },
        register_from-register_locked caps dryad_text ssh_text dryad sshd uuid now s eu ed es pd ps
            ∙ rw (new, register_locked) refl,
        rw (lookup-insert uuid uuid w s.workers.workers, beq_refl uuid)
            (ap ok (fill_ip-filled client dryad)),
        rw (lookup-insert uuid uuid w s.workers.workers, beq_refl uuid)
            (ap ok (fill_ip-filled client sshd)),
      )
