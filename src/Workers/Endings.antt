-- ===== src/Workers/Endings.antt =====
-- How the operations of a worker's goroutine end.
use boruta.Common.{
  ℕ, ◌≡◌, refl, inl, inr, true, false, Option, none, some, arith, List, [], ◌∷◌, ◌++◌, Bool-cases,
}
use boruta.Types.{idle, TcpAddr}
use boruta.Workers.Goroutine.{
  Run, Done, Action, creates, prepares, stores, closes, sets, check_channel, returns,
  unless_pending, store_key_done, install_done, with_key, with_public, with_addr, key_done,
  client_done, addr_done, prepare_key, prepare_key_and_set_state, ending,
}

-- What holds of the calls that were made, if nothing was pending and there was no error.
abbrev Clean : (List Action → Type 0) → Done → Type 0
Clean Q d = d.op.got ≡ false → d.has_error ≡ false → Q d.actions

module _ (Q : List Action → Type 0) (r : Run) (n : ℕ) where
  Clean-error : Clean Q (returns r n true)
  Clean-error got failed = cc

  Clean-unless_pending : (rest : Done) → Clean Q rest → Clean Q (unless_pending r n rest)
  Clean-unless_pending rest clean = elim (Bool-cases (check_channel (r.channel n)).got) [
    | inl e ↦ rw e (λ got. (let no : true ≡ false = cc in cc))
    | inr e ↦ rw e clean
  ]

-- A key is in place: the client was created, Prepare was given the public half of the key that
-- was stored, and returned no error.
pub record InPlace (r : Run) (actions : List Action) : Type 0 where
  pub addr : TcpAddr
  pub key : ℕ
  pub public : ℕ
  pub is_addr : r.addr ≡ some addr
  pub created : r.create_fails addr ≡ false
  pub is_key : r.generated ≡ some key
  pub is_public : r.public_key key ≡ some public
  pub prepared : r.prepare_fails public ≡ false
  pub stored : r.store_fails key ≡ false
  pub calls : actions ≡ creates addr ∷ prepares public ∷ stores key ∷ closes ∷ []

module _ (r : Run) (addr : TcpAddr) (is_addr : r.addr ≡ some addr)
    (created : r.create_fails addr ≡ false) where
  -- The calls between Create and Close.
  abbrev Inner : List Action → Type 0
  Inner l = InPlace r (creates addr ∷ (l ++ closes ∷ []))

  install_done-Clean :
      (key public : ℕ)
      → r.generated ≡ some key
      → r.public_key key ≡ some public
      → Clean Inner (install_done r key public)
  install_done-Clean key public ek ep = elim (Bool-cases (r.prepare_fails public)) [
    | inl e ↦ rw e (λ got failed. (let no : true ≡ false = failed in cc))
    | inr e ↦ rw e (
        Clean-unless_pending (λ l. Inner (prepares public ∷ l)) r 5 (store_key_done r key)
          (λ got stored. record {
            addr = addr;
            key = key;
            public = public;
            is_addr = is_addr;
            created = created;
            is_key = ek;
            is_public = ep;
            prepared = e;
            stored = stored;
            calls = refl;
          }))
  ]

  with_public-Clean :
      (key : ℕ) (o : Option ℕ)
      → r.generated ≡ some key
      → r.public_key key ≡ o
      → Clean Inner (with_public r key o)
  with_public-Clean key none ek ep = Clean-error Inner r 4
  with_public-Clean key (some public) ek ep =
      Clean-unless_pending Inner r 4 (install_done r key public)
        (install_done-Clean key public ek ep)

  with_key-Clean : (o : Option ℕ) → r.generated ≡ o → Clean Inner (with_key r o)
  with_key-Clean none ek = Clean-error Inner r 3
  with_key-Clean (some key) ek =
      Clean-unless_pending Inner r 3 (with_public r key (r.public_key key))
        (with_public-Clean key (r.public_key key) ek refl)

module _ (r : Run) where
  client_done-Clean :
      (addr : TcpAddr) → r.addr ≡ some addr → Clean (InPlace r) (client_done r (key_done r) addr)
  client_done-Clean addr ea = elim (Bool-cases (r.create_fails addr)) [
    | inl e ↦ rw e (λ got failed. (let no : true ≡ false = failed in cc))
    | inr e ↦ rw e (
        Clean-unless_pending (Inner r addr ea e) r 2 (key_done r)
          (with_key-Clean r addr ea e r.generated refl))
  ]

  with_addr-Clean :
      (o : Option TcpAddr) → r.addr ≡ o → Clean (InPlace r) (with_addr r (key_done r) o)
  with_addr-Clean none ea = Clean-error (InPlace r) r 1
  with_addr-Clean (some addr) ea =
      Clean-unless_pending (InPlace r) r 1 (client_done r (key_done r) addr)
        (client_done-Clean addr ea)

  prepare_key-Clean : Clean (InPlace r) (prepare_key r)
  unfolding prepare_key
  prepare_key-Clean =
      Clean-unless_pending (InPlace r) r 0 (addr_done r (key_done r)) (with_addr-Clean r.addr refl)

  ending-Clean :
      (n : ℕ) (d : Done)
      → ending r n idle d ≡ sets idle
      → (d.op.got ≡ false) × (d.has_error ≡ false)
  unfolding ending
  ending-Clean n d h = (ground arith, ground arith)

  -- If prepareKeyAndSetState sets its worker to IDLE, then the client was created at the worker's
  -- address, Prepare was given the public half of the key that was generated and returned no
  -- error, and that key was stored; these were all its calls, in this order, with Close of the
  -- client as the last.
  pub prepare_key_and_set_state-InPlace :
      prepare_key_and_set_state r ≡ sets idle → InPlace r (prepare_key r).actions
  unfolding prepare_key_and_set_state ending
  prepare_key_and_set_state-InPlace h =
      let clean = ending-Clean 7 (prepare_key r) h in prepare_key-Clean clean.0 clean.1
