-- ===== src/Dryad/Interface.antt =====
-- What a Dryad takes from its system, as a parameter, and calls that change a state: os/user, os/exec,
-- os, path and strconv of Go, the marshalling of a key in golang.org/x/crypto/ssh, and the STM of
-- MuxPi. A call changes the state that it is given, also when it fails; an error stands as its
-- text. The permissions of files are fixed.
use boruta.Common.{ℕ, List, Option, none, some, ◌⊎◌, inl, inr, Text, ◌++◌}

-- user.User
pub record User : Type 0 where
  pub uid : Text
  pub gid : Text
  pub home_dir : Text

-- What user.Lookup gives: a user, an UnknownUserError, or another error.
pub data Lookup : Type 0 where
  found : User → Lookup
  unknown lookup_error : Text → Lookup

-- What CombinedOutput of a command gives: no error, an ExitError with its exit status, or another
-- error; an error comes with its text and the output.
pub data Command : Type 0 where
  succeeded : Command
  exited : ℕ → Text → Text → Command
  not_run : Text → Text → Command

-- stm.LED
pub data Led : Type 0 where
  led_1 led_2 : Led

-- colorLED
pub record ColorLed : Type 0 where
  pub red : ℕ
  pub green : ℕ
  pub blue : ℕ

-- What the program takes from the system. `none` is the nil error.
pub record Machine : Type 1 where
  pub State : Type 0
  -- *os.File, and int
  pub File : Type 0
  pub Int : Type 0
  pub lookup_user : Text → State → Lookup
  pub run_command : List Text → State → Command × State
  pub mkdir_all : Text → State → Option Text × State
  pub open_truncated : Text → State → (File ⊎ Text) × State
  pub chown : Text → Int → Int → State → Option Text × State
  pub chown_file : File → Int → Int → State → Option Text × State
  pub write : File → Text → State → Option Text × State
  pub close : File → State → State
  pub join_path : Text → Text → Text
  pub atoi : Text → Int ⊎ Text
  pub marshal_authorized_key : ℕ → Text
  pub clear_display : State → Option Text × State
  pub print_text : Text → State → Option Text × State
  pub set_led : Led → ColorLed → State → Option Text × State
  pub power_tick : State → Option Text × State

-- What a call returns: a value, or the text of an error. It may also panic.
pub data Reply {ℓ} (A : Type ℓ) : Type ℓ where
  gives : A → Reply A
  fails_with : Text → Reply A
  panics : Reply A

-- A call that changes a state.
abbrev pub Act {ℓ κ} : Type ℓ → Type κ → Type (ℓ ⊔ κ)
Act S A = S → Reply A × S

abbrev pub and_then {ℓ κ μ} :
    {S : Type ℓ} {A : Type κ} {B : Type μ} → Reply A × S → (A → Act S B) → Reply B × S
and_then (gives a, s) next = next a s
and_then (fails_with e, s) next = (fails_with e, s)
and_then (panics, s) next = (panics, s)

infixl 5 ◌>>=◌ ◌>>◌
abbrev pub ◌>>=◌ {ℓ κ μ} :
    {S : Type ℓ} {A : Type κ} {B : Type μ} → Act S A → (A → Act S B) → Act S B
m >>= next = λ s. and_then (m s) next

abbrev pub ◌>>◌ {ℓ μ} : {S : Type ℓ} {B : Type μ} → Act S (Unit {0}) → Act S B → Act S B
m >> next = m >>= λ _. next

-- fmt.Errorf(`text` + "%s", err)
abbrev pub prefixed {ℓ} : {A : Type ℓ} → Text → Reply A → Reply A
prefixed text (fails_with e) = fails_with (text ++ e)
prefixed text (gives a) = gives a
prefixed text panics = panics

abbrev pub with_prefix {ℓ κ} : {S : Type ℓ} {A : Type κ} → Text → Act S A → Act S A
with_prefix text m s = let reply = m s in (prefixed text reply.0, reply.1)

abbrev pub nil_or : Option Text → Reply (Unit {0})
nil_or none = gives tt
nil_or (some e) = fails_with e

abbrev pub value_or {ℓ} : {A : Type ℓ} → A ⊎ Text → Reply A
value_or (inl a) = gives a
value_or (inr e) = fails_with e
