-- ===== src/Dryad/Ends.antt =====
-- How the calls of a Dryad end, and what is documented of the system below them.
use boruta.Common.{◌≡◌, refl, Option, none, some, [], ◌⊎◌, inl, inr, Text, codes}
use boruta.Dryad.{Machine, Reply, gives, fails_with, Act, and_then, prefixed, nil_or, value_or}

-- How a call ends without a panic, and what holds then.
pub data Ends {ℓ κ} {A : Type ℓ} {S : Type κ} (P : S → Type 0) : Reply A × S → Type (ℓ ⊔ κ) where
  succeeds : {a : A} {s : S} → P s → Ends P (gives a, s)
  refuses : {e : Text} {s : S} → Ends P (fails_with e, s)

module _ {ℓ κ} {A : Type ℓ} {S : Type κ} {P : S → Type 0} where
  pub Ends-then {μ} :
      {B : Type μ} {Q : S → Type 0} {m : Reply B × S} {next : B → Act S A}
      → Ends Q m
      → ((b : B) (s : S) → Q s → Ends P (next b s))
      → Ends P (and_then m next)
  Ends-then (succeeds q) k = k _ _ q
  Ends-then refuses k = refuses

  pub Ends-with_prefix : {m : Reply A × S} (t : Text) → Ends P m → Ends P (prefixed t m.0, m.1)
  Ends-with_prefix t (succeeds p) = succeeds p
  Ends-with_prefix t refuses = refuses

  -- What an error of the system stops, and what goes on without one.
  pub Ends-nil_or :
      (o : Option Text) (s : S) (next : Unit {0} → Act S A)
      → (o ≡ none → Ends P (next tt s))
      → Ends P (and_then (nil_or o, s) next)
  Ends-nil_or none s next k = k refl
  Ends-nil_or (some e) s next k = refuses

  pub Ends-value_or {μ} :
      {B : Type μ} (v : B ⊎ Text) (s : S) (next : B → Act S A)
      → ((b : B) → v ≡ inl b → Ends P (next b s))
      → Ends P (and_then (value_or v, s) next)
  Ends-value_or (inl b) s next k = k b refl
  Ends-value_or (inr e) s next k = refuses

  pub Ends-lift {μ} :
      {T : Type μ} {Q : T → Type 0} {m : Reply A × S} (f : S → T)
      → Ends P m
      → ((s : S) → P s → Q (f s))
      → Ends Q (m.0, f m.1)
  Ends-lift f (succeeds p) k = succeeds (k _ p)
  Ends-lift f refuses k = refuses

-- The last call of a sequence.
pub Ends-last {κ} :
    {S : Type κ} {P : S → Type 0} (o : Option Text) (s : S)
    → (o ≡ none → P s)
    → Ends P (nil_or o, s)
Ends-last none s k = succeeds (k refl)
Ends-last (some e) s k = refuses

-- What is documented of the calls that write the key: a file that is opened with O_TRUNC is empty, a
-- first write to it leaves what is written, Chown of a file sets its owner, and neither changes the
-- contents of files. A file named authorized_keys is none of those that users are looked up in.
pub record MachineLaws (m : Machine) : Type 0 where
  pub contents : Text → m.State → Option Text
  pub owner : Text → m.State → Option (m.Int × m.Int)
  pub path_of : m.File → Text
  pub open_empty :
      (p : Text) (f : m.File) (s : m.State)
      → (m.open_truncated p s).0 ≡ inl f
      → (path_of f ≡ p) × (contents p (m.open_truncated p s).1 ≡ some [])
  pub write_empty :
      (f : m.File) (t : Text) (s : m.State)
      → (m.write f t s).0 ≡ none
      → contents (path_of f) s ≡ some []
      → contents (path_of f) (m.write f t s).1 ≡ some t
  pub write_owner : (f : m.File) (t p : Text) (s : m.State) → owner p (m.write f t s).1 ≡ owner p s
  pub chown_contents :
      (d p : Text) (u g : m.Int) (s : m.State) → contents p (m.chown d u g s).1 ≡ contents p s
  pub chown_file_contents :
      (f : m.File) (p : Text) (u g : m.Int) (s : m.State)
      → contents p (m.chown_file f u g s).1 ≡ contents p s
  pub chown_file_owner :
      (f : m.File) (u g : m.Int) (s : m.State)
      → (m.chown_file f u g s).0 ≡ none
      → owner (path_of f) (m.chown_file f u g s).1 ≡ some (u, g)
  pub close_contents :
      (f : m.File) (p : Text) (s : m.State) → contents p (m.close f s) ≡ contents p s
  pub close_owner : (f : m.File) (p : Text) (s : m.State) → owner p (m.close f s) ≡ owner p s
  pub mkdir_users :
      (d n : Text) (s : m.State) → m.lookup_user n (m.mkdir_all d s).1 ≡ m.lookup_user n s
  pub open_users :
      (d n : Text) (s : m.State)
      → m.lookup_user n (m.open_truncated (m.join_path d (codes "authorized_keys")) s).1
        ≡ m.lookup_user n s
  pub chown_users :
      (d n : Text) (u g : m.Int) (s : m.State)
      → m.lookup_user n (m.chown d u g s).1 ≡ m.lookup_user n s
  pub chown_file_users :
      (f : m.File) (n : Text) (u g : m.Int) (s : m.State)
      → m.lookup_user n (m.chown_file f u g s).1 ≡ m.lookup_user n s
  pub write_users :
      (f : m.File) (d t n : Text) (s : m.State)
      → path_of f ≡ m.join_path d (codes "authorized_keys")
      → m.lookup_user n (m.write f t s).1 ≡ m.lookup_user n s
  pub close_users :
      (f : m.File) (n : Text) (s : m.State) → m.lookup_user n (m.close f s) ≡ m.lookup_user n s
