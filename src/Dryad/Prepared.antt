-- ===== src/Dryad/Prepared.antt =====
-- What Prepare leaves on a Dryad.
use boruta.Common.{ℕ, ◌≡◌, refl, sym, subst, ◌∙◌, Option, some, List, Text}
use boruta.Dryad.{
  User, Lookup, found, unknown, lookup_error, Machine, Host, perform, update, add, delete,
  delete_if, add_unless, looked_up, lookup_reply, store_lookup, install_for, install_key,
  handle_user_cmd_error, run_cmd, user_add_exit, user_del_exit, prepare_user_del_cmd, Command,
  succeeded, exited, not_run,
}
use boruta.Dryad.Rusalka.{
  Rusalka, prepare, renew_user, stop_maintenance, removal_failed, creation_failed, update_failed,
}
use boruta.Dryad.Ends.{Ends, succeeds, refuses, Ends-then, Ends-with_prefix, Ends-lift, MachineLaws}
use boruta.Dryad.Keys.{Keyed, install_public_key-Keyed}

module _ (machine : Machine) (laws : MachineLaws machine) where
  -- The user exists and has the key, and what the agent knows of the user is true.
  pub record Installed (key : ℕ) (h : Host machine) : Type 0 where
    pub user : User
    pub is_known : h.account.user ≡ some user
    pub exists : machine.lookup_user h.account.username h.system ≡ found user
    pub has_key : Keyed machine laws key user h.system

  run_cmd-Ends :
      (table : List (ℕ × Text)) (c : Command) (s : machine.State)
      → Ends (λ _. Unit {0}) (handle_user_cmd_error table c, s)
  unfolding handle_user_cmd_error
  run_cmd-Ends table succeeded s = succeeds tt
  run_cmd-Ends table (exited code e output) s = refuses
  run_cmd-Ends table (not_run e output) s = refuses

  perform-Ends :
      (table : List (ℕ × Text)) (cmd : List Text) (h : Host machine)
      → Ends (λ _. Unit {0}) (perform machine (run_cmd machine table cmd) h)
  unfolding run_cmd
  perform-Ends table cmd h =
      Ends-lift (λ s. record h { system = s })
        (run_cmd-Ends table (machine.run_command cmd h.system).0
          (machine.run_command cmd h.system).1)
        λ _ _. tt

  delete_if-Ends : (l : Lookup) (h : Host machine) → Ends (λ _. Unit {0}) (delete_if machine l h)
  unfolding delete_if
  delete_if-Ends (unknown e) h = succeeds tt
  delete_if-Ends (lookup_error e) h = refuses
  delete_if-Ends (found u) h =
      Ends-then {Q = λ _. Unit {0}}
        (perform-Ends user_del_exit (prepare_user_del_cmd h.account.username) h)
        λ _ t _. succeeds tt

  add_unless-Ends : (l : Lookup) (h : Host machine) → Ends (λ _. Unit {0}) (add_unless machine l h)
  unfolding add_unless
  add_unless-Ends (unknown e) h = perform-Ends user_add_exit _ h
  add_unless-Ends (lookup_error e) h = perform-Ends user_add_exit _ h
  add_unless-Ends (found u) h = succeeds tt

  add-Ends : (h : Host machine) → Ends (λ _. Unit {0}) (add machine h)
  unfolding add
  add-Ends h = add_unless-Ends (looked_up machine h) (update machine h).1

  delete-Ends : (h : Host machine) → Ends (λ _. Unit {0}) (delete machine h)
  unfolding delete
  delete-Ends h = delete_if-Ends (looked_up machine h) (update machine h).1

  abbrev FoundIn : Host machine → Type 0
  FoundIn t =
      (u : User) × (t.account.user ≡ some u)
      × (machine.lookup_user t.account.username t.system ≡ found u)

  update-Found_by :
      (h : Host machine) (l : Lookup)
      → looked_up machine h ≡ l
      → Ends FoundIn (lookup_reply machine l, store_lookup machine l h)
  update-Found_by h (found u) e = succeeds (u, refl, e)
  update-Found_by h (unknown t) e = refuses
  update-Found_by h (lookup_error t) e = refuses

  update-Found : (h : Host machine) → Ends FoundIn (update machine h)
  unfolding update
  update-Found h = update-Found_by h (looked_up machine h) refl

  install_for-Installed :
      (key : Option ℕ) (h : Host machine) (u : User)
      → h.account.user ≡ some u
      → machine.lookup_user h.account.username h.system ≡ found u
      → Ends
          (λ t. (k : ℕ) × (key ≡ some k) × Installed k t)
          (install_for machine h.account.user key h)
  unfolding install_for
  install_for-Installed key h u known exists =
      subst
        (λ o. Ends (λ t. (k : ℕ) × (key ≡ some k) × Installed k t) (install_for machine o key h))
        (sym known)
        (Ends-lift (λ s. record h { system = s })
          (install_public_key-Keyed machine laws key u h.system)
          λ s k. (
            k.0,
            k.1,
            record { user = u; is_known = known; exists = k.2.1 _ ∙ exists; has_key = k.2.0 },
          ))

  renew_user-Installed :
      (key : Option ℕ) (h : Host machine)
      → Ends (λ t. (k : ℕ) × (key ≡ some k) × Installed k t) (renew_user machine key h)
  unfolding renew_user install_key
  renew_user-Installed key h = Ends-then (Ends-with_prefix removal_failed (delete-Ends h)) λ _ h1 _.
      Ends-then (Ends-with_prefix creation_failed (add-Ends h1)) λ _ h2 _.
        Ends-then (Ends-with_prefix update_failed (update-Found h2))
          λ _ h3 found_in. install_for-Installed key h3 found_in.0 found_in.1 found_in.2

  -- If a file that is opened with O_TRUNC is empty, a first write to it leaves what is written, a
  -- change of a file's owner sets it and no file's contents, and none of the calls that write a
  -- key changes the users, then Prepare of the agent, from any state, returns an error or returns
  -- with a key that was given, the user known to the system as the agent knows it, and the user's
  -- authorized_keys holding exactly the key that was given and belonging to the user. It does not
  -- panic.
  pub prepare-Installed :
      (key : Option ℕ) (r : Rusalka machine)
      → Ends (λ t. (k : ℕ) × (key ≡ some k) × Installed k t.host) (prepare machine key r)
  unfolding prepare stop_maintenance
  prepare-Installed key r =
      Ends-lift (λ h. record (stop_maintenance machine r) { host = h })
        (renew_user-Installed key r.host) λ h i. i
