-- ===== src/Dryad/Keys.antt =====
-- dryad/key.go: what installPublicKey leaves.
use boruta.Common.{ℕ, ◌≡◌, refl, ap, subst, ◌∙◌, Option, none, some, [], inl, Text}
use boruta.Dryad.{
  User, Machine, and_then, on_system, install_public_key, update_ownership, ssh_dir_of,
  keys_file_of,
}
use boruta.Dryad.Ends.{
  Ends, refuses, Ends-then, Ends-nil_or, Ends-value_or, Ends-lift, Ends-last, MachineLaws,
}

module _ (machine : Machine) (laws : MachineLaws machine) where
  -- The key of a user: its file holds the key and belongs to the user.
  pub record Keyed (key : ℕ) (u : User) (s : machine.State) : Type 0 where
    pub uid : machine.Int
    pub gid : machine.Int
    pub is_uid : machine.atoi u.uid ≡ inl uid
    pub is_gid : machine.atoi u.gid ≡ inl gid
    pub holds :
        laws.contents (keys_file_of machine u.home_dir) s
        ≡ some (machine.marshal_authorized_key key)
    pub belongs : laws.owner (keys_file_of machine u.home_dir) s ≡ some (uid, gid)

  record Owned (f : machine.File) (uid gid : Text) (s t : machine.State) : Type 0 where
    uid_int : machine.Int
    gid_int : machine.Int
    is_uid : machine.atoi uid ≡ inl uid_int
    is_gid : machine.atoi gid ≡ inl gid_int
    same_contents : (p : Text) → laws.contents p t ≡ laws.contents p s
    same_users : (n : Text) → machine.lookup_user n t ≡ machine.lookup_user n s
    belongs : laws.owner (laws.path_of f) t ≡ some (uid_int, gid_int)

  update_ownership-Owned :
      (f : machine.File) (dir uid gid : Text) (s : machine.State)
      → Ends (Owned f uid gid s) (update_ownership machine f dir uid gid s)
  unfolding update_ownership
  update_ownership-Owned f dir uid gid s = Ends-value_or (machine.atoi uid) s _ λ u eu.
      Ends-value_or (machine.atoi gid) s _ λ g eg.
        Ends-nil_or (machine.chown dir u g s).0 (machine.chown dir u g s).1 _ λ _.
          let s1 = (machine.chown dir u g s).1 in
          Ends-last (machine.chown_file f u g s1).0 (machine.chown_file f u g s1).1 λ e. record {
            uid_int = u;
            gid_int = g;
            is_uid = eu;
            is_gid = eg;
            same_contents =
                λ p. laws.chown_file_contents f p u g s1 ∙ laws.chown_contents dir p u g s;
            same_users = λ n. laws.chown_file_users f n u g s1 ∙ laws.chown_users dir n u g s;
            belongs = laws.chown_file_owner f u g s1 e;
          }

  -- The key is there, and no user has changed.
  abbrev pub KeyedSame : ℕ → User → machine.State → machine.State → Type 0
  KeyedSame key u s t =
      Keyed key u t × ((n : Text) → machine.lookup_user n t ≡ machine.lookup_user n s)

  write-Keyed :
      (key : ℕ) (u : User) (f : machine.File) (s t : machine.State)
      → laws.path_of f ≡ keys_file_of machine u.home_dir
      → laws.contents (keys_file_of machine u.home_dir) s ≡ some []
      → Owned f u.uid u.gid s t
      → (machine.write f (machine.marshal_authorized_key key) t).0 ≡ none
      → KeyedSame key u s (machine.write f (machine.marshal_authorized_key key) t).1
  write-Keyed key u f s t path empty o e = (
    record {
      uid = o.uid_int;
      gid = o.gid_int;
      is_uid = o.is_uid;
      is_gid = o.is_gid;
      holds =
          let mk = machine.marshal_authorized_key key in
          subst (λ q. laws.contents q (machine.write f mk t).1 ≡ some mk) path
            (laws.write_empty f mk t e
              (o.same_contents (laws.path_of f) ∙ ap (λ q. laws.contents q s) path ∙ empty));
      belongs =
          let mk = machine.marshal_authorized_key key in
          subst (λ q. laws.owner q (machine.write f mk t).1 ≡ some (o.uid_int, o.gid_int)) path
            (laws.write_owner f mk (laws.path_of f) t ∙ o.belongs);
    },
    λ n. laws.write_users f (ssh_dir_of machine u.home_dir) _ n t path ∙ o.same_users n,
  )

  close-Keyed :
      (key : ℕ) (u : User) (f : machine.File) (s t : machine.State)
      → KeyedSame key u s t
      → KeyedSame key u s (machine.close f t)
  close-Keyed key u f s t (k, same) =
      let path = keys_file_of machine u.home_dir in
      (
        record {
          uid = k.uid;
          gid = k.gid;
          is_uid = k.is_uid;
          is_gid = k.is_gid;
          holds = laws.close_contents f path t ∙ k.holds;
          belongs = laws.close_owner f path t ∙ k.belongs;
        },
        λ n. laws.close_users f n t ∙ same n,
      )

  after-Keyed :
      (key : ℕ) (u : User) (r s t : machine.State)
      → ((n : Text) → machine.lookup_user n s ≡ machine.lookup_user n r)
      → KeyedSame key u s t
      → KeyedSame key u r t
  after-Keyed key u r s t same (k, l) = (k, λ n. l n ∙ same n)

  -- The file is open and empty: what is left is its owner and the key.
  store_key-Keyed :
      (key : ℕ) (u : User) (f : machine.File) (s : machine.State)
      → laws.path_of f ≡ keys_file_of machine u.home_dir
      → laws.contents (keys_file_of machine u.home_dir) s ≡ some []
      → Ends (KeyedSame key u s) (
          and_then
            (update_ownership machine f (ssh_dir_of machine u.home_dir) u.uid u.gid s)
            λ _. on_system machine (machine.write f (machine.marshal_authorized_key key)))
  store_key-Keyed key u f s path empty =
      Ends-then (update_ownership-Owned f (ssh_dir_of machine u.home_dir) u.uid u.gid s) λ _ t o.
        let mk = machine.marshal_authorized_key key in
        Ends-last (machine.write f mk t).0 (machine.write f mk t).1
          (write-Keyed key u f s t path empty o)

  pub install_public_key-Keyed :
      (key : Option ℕ) (u : User) (s : machine.State)
      → Ends
          (λ t. (k : ℕ) × (key ≡ some k) × KeyedSame k u s t)
          (install_public_key machine key u.home_dir u.uid u.gid s)
  unfolding install_public_key
  install_public_key-Keyed none u s = refuses
  install_public_key-Keyed (some key) u s =
      let dir = ssh_dir_of machine u.home_dir in
      let path = keys_file_of machine u.home_dir in
      let s1 = (machine.mkdir_all dir s).1 in
      let s2 = (machine.open_truncated path s1).1 in
      Ends-nil_or (machine.mkdir_all dir s).0 s1 _ λ _.
        Ends-value_or (machine.open_truncated path s1).0 s2 _ λ f opened.
          let empty = laws.open_empty path f s1 opened in
          Ends-lift (machine.close f) (store_key-Keyed key u f s2 empty.0 empty.1) λ t keyed.
            let k = close-Keyed key u f s2 t keyed in
            (
              key,
              refl,
              after-Keyed key u s s2 _ (λ n. laws.open_users dir n s1 ∙ laws.mkdir_users dir n s) k,
            )
