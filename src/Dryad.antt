-- ===== src/Dryad.antt =====
-- dryad/user.go and dryad/key.go: the Unix user of a Dryad and the key that it may log in with. A call
-- of `borutaUser` is one on a `Host`, the user with its system.
mod Interface
pub mod Rusalka
pub mod Ends
mod Keys
pub mod Prepared
pub mod Blinking
mod Conf
pub use Interface.{
  User, Lookup, found, unknown, lookup_error, Command, succeeded, exited, not_run, Led, led_1,
  led_2, ColorLed, Machine, Reply, gives, fails_with, panics, Act, and_then, ◌>>=◌, ◌>>◌, prefixed,
  with_prefix, nil_or, value_or,
}
use boruta.Common.{
  ℕ, Bool, true, false, Option, none, some, List, [], ◌∷◌, ◌++◌, inl, inr, Text, codes, nat_beq,
  if◌then◌else◌,
}

abbrev pub user_add_exit : List (ℕ × Text)
user_add_exit =
    (0, codes "success")
    ∷ (1, codes "can't update password file")
    ∷ (2, codes "invalid command syntax")
    ∷ (3, codes "invalid argument to option")
    ∷ (4, codes "UID already in use (and no -o)")
    ∷ (6, codes "specified group doesn't exist")
    ∷ (9, codes "username already in use")
    ∷ (10, codes "can't update group file")
    ∷ (12, codes "can't create home directory")
    ∷ (14, codes "can't update SELinux user mapping")
    ∷ []

abbrev pub user_del_exit : List (ℕ × Text)
user_del_exit =
    (0, codes "success")
    ∷ (1, codes "can't update password file")
    ∷ (2, codes "invalid command syntax")
    ∷ (6, codes "specified user doesn't exist")
    ∷ (8, codes "user currently logged in")
    ∷ (10, codes "can't update group file")
    ∷ (12, codes "can't remove home directory")
    ∷ []

abbrev pub exit_text : ℕ → List (ℕ × Text) → Option Text
exit_text code [] = none
exit_text code ((c, text) ∷ table) =
    let rest = exit_text code table in if nat_beq c code then some text else rest

abbrev pub command_failed : Text
command_failed = codes "command failed: "

abbrev pub exit_error : Option Text → Text → Text → Text
exit_error (some text) output e = command_failed ++ text
exit_error none output e = command_failed ++ e ++ codes ", " ++ output

-- An exit status of the table has its text; other errors are shown with the output.
unfoldable pub handle_user_cmd_error : List (ℕ × Text) → Command → Reply (Unit {0})
handle_user_cmd_error table succeeded = gives tt
handle_user_cmd_error table (exited code e output) =
    fails_with (exit_error (exit_text code table) output e)
handle_user_cmd_error table (not_run e output) = fails_with (exit_error none output e)

-- strings.Join(groups, ",")
unfoldable pub prepare_groups : List Text → Text
prepare_groups [] = []
prepare_groups (g ∷ []) = g
prepare_groups (g ∷ h ∷ rest) = g ++ codes "," ++ prepare_groups (h ∷ rest)

unfoldable pub prepare_user_add_cmd : Text → List Text → List Text
unfolding prepare_groups
prepare_user_add_cmd username groups =
    codes "useradd"
    ∷ codes "-p"
    ∷ codes "*"
    ∷ codes "-m"
    ∷ codes "-G"
    ∷ prepare_groups groups
    ∷ username
    ∷ []

unfoldable pub prepare_user_del_cmd : Text → List Text
prepare_user_del_cmd username = codes "userdel" ∷ codes "-r" ∷ codes "-f" ∷ username ∷ []

pub record BorutaUser : Type 0 where
  pub username : Text
  pub groups : List Text
  pub user : Option User

unfoldable pub new_boruta_user : Text → List Text → BorutaUser
new_boruta_user username groups = record { username = username; groups = groups; user = none }

module _ (machine : Machine) where
  -- A borutaUser on its system.
  pub record Host : Type 0 where
    pub account : BorutaUser
    pub system : machine.State

  -- A call of the system.
  abbrev pub perform {ℓ} : {A : Type ℓ} → Act machine.State A → Act Host A
  perform m h = let reply = m h.system in (reply.0, record h { system = reply.1 })

  abbrev pub on_system :
      (machine.State → Option Text × machine.State) → Act machine.State (Unit {0})
  on_system f s = let reply = f s in (nil_or reply.0, reply.1)

  abbrev pub store_lookup : Lookup → Host → Host
  store_lookup (found u) h = record h { account = record h.account { user = some u } }
  store_lookup _ h = record h { account = record h.account { user = none } }

  abbrev pub lookup_reply : Lookup → Reply (Unit {0})
  lookup_reply (found u) = gives tt
  lookup_reply (unknown e) = fails_with e
  lookup_reply (lookup_error e) = fails_with e

  abbrev pub looked_up : Host → Lookup
  looked_up h = machine.lookup_user h.account.username h.system

  unfoldable pub update : Act Host (Unit {0})
  update h = (lookup_reply (looked_up h), store_lookup (looked_up h) h)

  unfoldable pub run_cmd : List (ℕ × Text) → List Text → Act machine.State (Unit {0})
  unfolding handle_user_cmd_error
  run_cmd table cmd s =
      let reply = machine.run_command cmd s in (handle_user_cmd_error table reply.0, reply.1)

  unfoldable pub add_unless : Lookup → Act Host (Unit {0})
  unfolding prepare_user_add_cmd run_cmd
  add_unless (found u) h = (gives tt, h)
  add_unless _ h =
      perform (run_cmd user_add_exit (prepare_user_add_cmd h.account.username h.account.groups)) h

  unfoldable pub add : Act Host (Unit {0})
  unfolding update add_unless
  add h = add_unless (looked_up h) (update h).1

  -- bu.user = nil
  abbrev pub forget_user : Act Host (Unit {0})
  forget_user h = (gives tt, record h { account = record h.account { user = none } })

  unfoldable pub delete_if : Lookup → Act Host (Unit {0})
  unfolding prepare_user_del_cmd run_cmd
  delete_if (unknown e) h = (gives tt, h)
  delete_if (lookup_error e) h = (fails_with e, h)
  delete_if (found u) h =
      and_then (perform (run_cmd user_del_exit (prepare_user_del_cmd h.account.username)) h)
        λ _. forget_user

  unfoldable pub delete : Act Host (Unit {0})
  unfolding update delete_if
  delete h = delete_if (looked_up h) (update h).1

  unfoldable pub update_ownership : machine.File → Text → Text → Text → Act machine.State (Unit {0})
  update_ownership key ssh_dir uid_str gid_str = do
    uid ← λ s. (value_or (machine.atoi uid_str), s)
    gid ← λ s. (value_or (machine.atoi gid_str), s)
    on_system (machine.chown ssh_dir uid gid)
    on_system (machine.chown_file key uid gid)

  -- The file is closed at the end of the call, whatever its outcome.
  abbrev pub closing : machine.File → Act machine.State (Unit {0}) → Act machine.State (Unit {0})
  closing f m s = let reply = m s in (reply.0, machine.close f reply.1)

  abbrev pub open_keys : Text → Act machine.State machine.File
  open_keys path s = let reply = machine.open_truncated path s in (value_or reply.0, reply.1)

  abbrev pub ssh_dir_of : Text → Text
  ssh_dir_of homedir = machine.join_path homedir (codes ".ssh")

  abbrev pub keys_file_of : Text → Text
  keys_file_of homedir = machine.join_path (ssh_dir_of homedir) (codes "authorized_keys")

  unfoldable pub install_public_key : Option ℕ → Text → Text → Text → Act machine.State (Unit {0})
  unfolding update_ownership
  install_public_key none homedir uid gid s = (fails_with (codes "empty public key"), s)
  install_public_key (some key) homedir uid gid s =
      (do
        on_system (machine.mkdir_all (ssh_dir_of homedir))
        f ← open_keys (keys_file_of homedir)
        closing f do
          update_ownership f (ssh_dir_of homedir) uid gid
          on_system (machine.write f (machine.marshal_authorized_key key)))
        s

  unfoldable pub install_for : Option User → Option ℕ → Act Host (Unit {0})
  unfolding install_public_key
  install_for none key h = (panics, h)
  install_for (some u) key h = perform (install_public_key key u.home_dir u.uid u.gid) h

  unfoldable pub install_key : Option ℕ → Act Host (Unit {0})
  unfolding install_for
  install_key key h = install_for h.account.user key h
