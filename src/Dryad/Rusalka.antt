-- ===== src/Dryad/Rusalka.antt =====
-- dryad/rusalka.go and dryad/muxpi.go: the agent that serves the calls of the server on a Dryad. A
-- context of PutInMaintenance is a number; `blinking` are those that a LED blinks for and that are
-- not cancelled.
use boruta.Common.{
  ℕ, suc, Bool, true, false, not, Option, none, some, List, [], ◌∷◌, Text, codes, select, nat_beq,
}
use boruta.Dryad.{
  Machine, Host, ColorLed, Led, led_1, led_2, gives, Act, ◌>>◌, with_prefix, perform, on_system,
  new_boruta_user, update, add, delete, install_key,
}

abbrev pub off : ColorLed
off = record { red = 0; green = 0; blue = 0 }

abbrev pub yellow : ColorLed
yellow = record { red = 96; green = 144; blue = 0 }

abbrev pub removal_failed : Text
removal_failed = codes "user removal failed: "

abbrev pub creation_failed : Text
creation_failed = codes "user creation failed: "

abbrev pub update_failed : Text
update_failed = codes "user information update failed: "

module _ (machine : Machine) where
  pub record Rusalka : Type 0 where
    pub host : Host machine
    pub cancel_maintenance : Option ℕ
    pub contexts : ℕ
    pub blinking : List ℕ

  unfoldable pub new_rusalka : Text → List Text → machine.State → Rusalka
  unfolding new_boruta_user
  new_rusalka username groups system = record {
    host = record { account = new_boruta_user username groups; system = system };
    cancel_maintenance = none;
    contexts = 0;
    blinking = [];
  }

  abbrev pub on_host : Act (Host machine) (Unit {0}) → Act Rusalka (Unit {0})
  on_host m r = let reply = m r.host in (reply.0, record r { host = reply.1 })

  unfoldable pub set_led : Led → ColorLed → machine.State → machine.State
  set_led led color s = (machine.set_led led color s).1

  -- One pass of the loop of blinkMaintenanceLED, which drops errors; it sleeps while a LED is lit.
  unfoldable pub blink : machine.State → machine.State
  unfolding set_led
  blink s = set_led led_2 off (set_led led_2 yellow (set_led led_1 off (set_led led_1 yellow s)))

  -- The loop, with what the test of the context gives after each pass, as far as it has come.
  unfoldable pub blink_maintenance_led : List Bool → machine.State → machine.State
  unfolding blink
  blink_maintenance_led [] s = s
  blink_maintenance_led (true ∷ rest) s = (machine.clear_display (blink s)).1
  blink_maintenance_led (false ∷ rest) s = blink_maintenance_led rest (blink s)

  unfoldable pub print_message : Text → Act machine.State (Unit {0})
  print_message msg = do
    on_system machine machine.clear_display
    on_system machine (machine.print_text msg)

  abbrev pub start_blinking : Act Rusalka (Unit {0})
  start_blinking r = (
    gives tt,
    record r {
      cancel_maintenance = some r.contexts;
      contexts = suc r.contexts;
      blinking = r.contexts ∷ r.blinking;
    },
  )

  unfoldable pub put_in_maintenance : Text → Act Rusalka (Unit {0})
  unfolding print_message
  put_in_maintenance msg = do on_host (perform machine (print_message msg)); start_blinking

  unfoldable pub cancelled : Option ℕ → List ℕ → List ℕ
  unfolding select
  cancelled none l = l
  cancelled (some c) l = select (λ x. not (nat_beq x c)) l

  unfoldable pub stop_maintenance : Rusalka → Rusalka
  unfolding cancelled
  stop_maintenance r = record r {
    cancel_maintenance = none;
    blinking = cancelled r.cancel_maintenance r.blinking;
  }

  -- From the removal of the user on.
  unfoldable pub renew_user : Option ℕ → Act (Host machine) (Unit {0})
  unfolding update add delete install_key
  renew_user key = do
    with_prefix removal_failed (delete machine)
    with_prefix creation_failed (add machine)
    with_prefix update_failed (update machine)
    install_key machine key

  unfoldable pub prepare : Option ℕ → Act Rusalka (Unit {0})
  unfolding stop_maintenance renew_user
  prepare key r = on_host (renew_user key) (stop_maintenance r)

  unfoldable pub healthcheck : Act Rusalka (Unit {0})
  healthcheck = on_host (perform machine (on_system machine machine.power_tick))
