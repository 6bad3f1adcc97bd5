-- ===== src/Samples/Dryad.antt =====
-- A system of a Dryad, for the tests: a table of users, the contents and the owners of files, the text
-- that the STM shows, and commands that succeed.
use boruta.Common.{
  ℕ, ◌+◌, ◌*◌, ◌-◌, ◌≡◌, refl, sym, ap, ◌∙◌, Option, none, some, List, [], ◌∷◌, ◌++◌, ◌⊎◌, inl, inr,
  Text, codes, Map, insert, delete, lookup, lookup-insert, text_eq, text_beq_refl, if◌then◌else◌,
}
use boruta.Dryad.{Machine, User, Lookup, found, unknown, succeeded}
use boruta.Dryad.Ends.{MachineLaws}

pub record Disk : Type 0 where
  pub users : Map Text User
  pub contents : Map Text Text
  pub owners : Map Text (ℕ × ℕ)
  pub shown : Text

abbrev pub lookup_reply : Text → Option User → Lookup
lookup_reply name none = unknown (codes "user: unknown user " ++ name)
lookup_reply name (some u) = found u

abbrev last : Text → List Text → Text
last t [] = t
last t (u ∷ l) = last u l

abbrev sample_user : Text → User
sample_user name = record {
  uid = codes "1001";
  gid = codes "1002";
  home_dir = codes "/home/" ++ name;
}

unfoldable pub run_command : List Text → Disk → Disk
unfolding insert delete
run_command [] s = s
run_command (c ∷ args) s =
    let name = last c args in
    record s {
      users =
          if text_eq.beq c (codes "useradd")
          then insert name (sample_user name) s.users
          else delete name s.users;
    }

abbrev pub digits : ℕ → Text → ℕ
digits n [] = n
digits n (c ∷ t) = digits (10 * n + (c - 48)) t

abbrev pub atoi : Text → ℕ ⊎ Text
atoi [] = inr (codes "invalid syntax")
atoi (c ∷ t) = inl (digits 0 (c ∷ t))

abbrev pub sample_machine : Machine
sample_machine = record {
  State = Disk;
  File = Text;
  Int = ℕ;
  lookup_user = λ name s. lookup_reply name (lookup name s.users);
  run_command = λ cmd s. (succeeded, run_command cmd s);
  mkdir_all = λ d s. (none, s);
  open_truncated = λ p s. (inl p, record s { contents = insert p [] s.contents });
  chown = λ p u g s. (none, record s { owners = insert p (u, g) s.owners });
  chown_file = λ f u g s. (none, record s { owners = insert f (u, g) s.owners });
  write = λ f t s. (none, record s { contents = insert f t s.contents });
  close = λ f s. s;
  join_path = λ d p. d ++ codes "/" ++ p;
  atoi = atoi;
  marshal_authorized_key = λ k. codes "ssh-rsa " ++ (k ∷ []);
  clear_display = λ s. (none, record s { shown = [] });
  print_text = λ t s. (none, record s { shown = t });
  set_led = λ led color s. (none, s);
  power_tick = λ s. (none, s);
}

lookup-insert_same :
    {V : Type 0} (k : Text) (v : V) (m : Map Text V) → lookup k (insert k v m) ≡ some v
lookup-insert_same k v m = lookup-insert k k v m ∙ rw (text_beq_refl k) refl

pub sample_machine_laws : MachineLaws sample_machine
sample_machine_laws = record {
  contents = λ p s. lookup p s.contents;
  owner = λ p s. lookup p s.owners;
  path_of = λ f. f;
  open_empty = λ p f s e.
      (ap (λ x. elim x [ inl q ↦ q | inr q ↦ f ]) (sym e), lookup-insert_same p [] s.contents);
  write_empty = λ f t s e h. lookup-insert_same f t s.contents;
  write_owner = λ f t p s. refl;
  chown_contents = λ d p u g s. refl;
  chown_file_contents = λ f p u g s. refl;
  chown_file_owner = λ f u g s e. lookup-insert_same f (u, g) s.owners;
  close_contents = λ f p s. refl;
  close_owner = λ f p s. refl;
  mkdir_users = λ d n s. refl;
  open_users = λ d n s. refl;
  chown_users = λ d n u g s. refl;
  chown_file_users = λ f n u g s. refl;
  write_users = λ f d t n s e. refl;
  close_users = λ f n s. refl;
}

-- A Dryad that serves an earlier user of the name.
abbrev pub sample_disk : Disk
sample_disk = record {
  users = (codes "boruta-user", sample_user (codes "old")) ∷ [];
  contents = [];
  owners = [];
  shown = [];
}
