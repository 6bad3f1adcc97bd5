-- ===== src/Outcome.antt =====
-- How a call ends well: it does not panic, and what it returns satisfies a predicate. An error, or a
-- wait at a channel or a mutex, leaves nothing to show.
use boruta.Common.{◌≡◌, refl, subst, ◌≢◌, Bool, true, false, Option, none, some, if◌then◌else◌}
use boruta.Types.{Error, Result, ok, err, panic, blocked, ◌>>=◌, ◌>>◌, fail_if, or_fail}

pub data Sound {ℓ} {A : Type ℓ} (P : A → Type 0) : Result A → Type ℓ where
  returns : {a : A} → P a → Sound P (ok a)
  fails : {e : Error} → Sound P (err e)
  waits : Sound P blocked

module _ {ℓ} {A : Type ℓ} {P : A → Type 0} where
  pub Sound-bind {κ} :
      {B : Type κ} {Q : B → Type 0} {m : Result B} {f : B → Result A}
      → Sound Q m
      → ((b : B) → m ≡ ok b → Q b → Sound P (f b))
      → Sound P (m >>= f)
  Sound-bind (returns p) k = k _ refl p
  Sound-bind fails k = fails
  Sound-bind waits k = waits

  pub Sound-or_fail {κ} :
      {B : Type κ} (o : Option B) (e : Error) {f : B → Result A}
      → ((b : B) → o ≡ some b → Sound P (f b))
      → Sound P (or_fail o e >>= f)
  Sound-or_fail none e k = fails
  Sound-or_fail (some b) e k = k b refl

  pub Sound-fail_if :
      (b : Bool) (e : Error) {m : Result A} → (b ≡ false → Sound P m) → Sound P (fail_if b e >> m)
  Sound-fail_if true e k = fails
  Sound-fail_if false e k = k refl

  pub Sound-if :
      (b : Bool) {m n : Result A}
      → (b ≡ true → Sound P m)
      → (b ≡ false → Sound P n)
      → Sound P (if b then m else n)
  Sound-if true h k = h refl
  Sound-if false h k = k refl

  pub Sound-map : {Q : A → Type 0} {m : Result A} → Sound P m → ((a : A) → P a → Q a) → Sound Q m
  Sound-map (returns p) k = returns (k _ p)
  Sound-map fails k = fails
  Sound-map waits k = waits

  pub Sound-both :
      {Q : A → Type 0} {m : Result A} → Sound P m → Sound Q m → Sound (λ a. P a × Q a) m
  Sound-both (returns p) (returns q) = returns (p, q)
  Sound-both fails q = fails
  Sound-both waits q = waits

  -- What a sound call returns, and that it does not panic.
  pub Sound-ok : {m : Result A} (a : A) → Sound P m → m ≡ ok a → P a
  Sound-ok a (returns p) e = subst P (cc) p
  Sound-ok a fails e = cc
  Sound-ok a waits e = cc

  pub Sound-panic : {m : Result A} → Sound P m → m ≢ panic
  Sound-panic (returns p) e = cc
  Sound-panic fails e = cc
  Sound-panic waits e = cc

-- What a call returns satisfies a predicate, if it returns.
pub data Every {ℓ} {A : Type ℓ} (P : A → Type 0) : Result A → Type ℓ where
  gives : {a : A} → P a → Every P (ok a)
  refuses : {e : Error} → Every P (err e)
  breaks : Every P panic
  stays : Every P blocked

module _ {ℓ} {A : Type ℓ} {P : A → Type 0} where
  pub Every-bind {κ} :
      {B : Type κ} {Q : B → Type 0} {m : Result B} {f : B → Result A}
      → Every Q m
      → ((b : B) → m ≡ ok b → Q b → Every P (f b))
      → Every P (m >>= f)
  Every-bind (gives q) k = k _ refl q
  Every-bind refuses k = refuses
  Every-bind breaks k = breaks
  Every-bind stays k = stays

  -- Whatever the first of two calls returns.
  pub Every-after {κ} :
      {B : Type κ} (m : Result B) {f : B → Result A} → ((b : B) → Every P (f b)) → Every P (m >>= f)
  Every-after (ok b) k = k b
  Every-after (err e) k = refuses
  Every-after panic k = breaks
  Every-after blocked k = stays

  pub Every-or_fail {κ} :
      {B : Type κ} (o : Option B) (e : Error) {f : B → Result A}
      → ((b : B) → o ≡ some b → Every P (f b))
      → Every P (or_fail o e >>= f)
  Every-or_fail none e k = refuses
  Every-or_fail (some b) e k = k b refl

  pub Every-fail_if :
      (b : Bool) (e : Error) {m : Result A} → (b ≡ false → Every P m) → Every P (fail_if b e >> m)
  Every-fail_if true e k = refuses
  Every-fail_if false e k = k refl

  pub Every-if :
      (b : Bool) {m n : Result A}
      → (b ≡ true → Every P m)
      → (b ≡ false → Every P n)
      → Every P (if b then m else n)
  Every-if true h k = h refl
  Every-if false h k = k refl

  pub Every-map : {Q : A → Type 0} {m : Result A} → Every P m → ((a : A) → P a → Q a) → Every Q m
  Every-map (gives p) k = gives (k _ p)
  Every-map refuses k = refuses
  Every-map breaks k = breaks
  Every-map stays k = stays

  pub Every-ok : {m : Result A} (a : A) → Every P m → m ≡ ok a → P a
  Every-ok a (gives p) e = subst P (cc) p
  Every-ok a refuses e = cc
  Every-ok a breaks e = cc
  Every-ok a stays e = cc
