-- ===== src/Tests/Dryad.antt =====
-- The theorems on a Dryad at a concrete system.
use boruta.Common.{◌≡◌, refl, Option, none, some, List, [], ◌∷◌, Text, codes, Mem, ℕ}
use boruta.Dryad.{gives}
use boruta.Dryad.Ends.{Ends}
use boruta.Dryad.Rusalka.{Rusalka, new_rusalka, prepare, put_in_maintenance}
use boruta.Dryad.Prepared.{Installed, prepare-Installed}
use boruta.Dryad.Blinking.{
  blinking_after, prepare-put_in_maintenance, put_in_maintenance-put_in_maintenance,
}
use boruta.Samples.Dryad.{sample_machine, sample_machine_laws, sample_disk}

abbrev fresh : Rusalka sample_machine
fresh = new_rusalka sample_machine (codes "boruta-user") (codes "stm" ∷ []) sample_disk

prepare-Installed_example :
    Ends
      (λ t. (k : ℕ) × (some 7 ≡ some k) × Installed sample_machine sample_machine_laws k t.host)
      (prepare sample_machine (some 7) fresh)
prepare-Installed_example = prepare-Installed sample_machine sample_machine_laws (some 7) fresh

-- The call does return.
prepare_test : (prepare sample_machine (some 7) fresh).0 ≡ gives tt
unfolding prepare boruta.Common.lookup new_rusalka boruta.Common.text_beq
    boruta.Samples.Dryad.run_command
prepare_test = refl

prepare-put_in_maintenance_example :
    blinking_after sample_machine
      (prepare sample_machine (some 7) (put_in_maintenance sample_machine (codes "off") fresh).1)
    ≡ []
unfolding new_rusalka
prepare-put_in_maintenance_example =
    prepare-put_in_maintenance sample_machine (codes "off") (some 7) fresh refl

abbrev once : Rusalka sample_machine
once = (put_in_maintenance sample_machine (codes "off") fresh).1

abbrev twice : Rusalka sample_machine
twice = (put_in_maintenance sample_machine (codes "still off") once).1

put_in_maintenance-put_in_maintenance_example :
    Mem 0 (blinking_after sample_machine (prepare sample_machine (some 7) twice))
unfolding put_in_maintenance new_rusalka
put_in_maintenance-put_in_maintenance_example =
    put_in_maintenance-put_in_maintenance sample_machine (codes "off") (codes "still off") (some 7)
      fresh once twice refl refl
