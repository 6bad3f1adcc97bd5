-- ===== src/Dryad/Conf.antt =====
-- dryad/conf/conf.go: the configuration of a Dryad and its defaults. Its reading and writing in TOML
-- is that of github.com/BurntSushi/toml.
use boruta.Common.{ℕ, List, [], Text, codes}
use boruta.Types.{Capabilities}

abbrev default_rpc_port : ℕ
default_rpc_port = 7175

abbrev default_ssh_port : ℕ
default_ssh_port = 22

record User : Type 0 where
  name : Text
  groups : List Text

record General : Type 0 where
  address : Text
  boruta_address : Text
  ssh_address : Text
  caps : Capabilities
  user : User
  sdcard : Text
  stm_socket : Text

-- `port_text` is fmt.Sprintf(":%d").
unfoldable new_conf : (ℕ → Text) → General
new_conf port_text = record {
  address = port_text default_rpc_port;
  boruta_address = [];
  ssh_address = port_text default_ssh_port;
  caps = [];
  user = record { name = codes "boruta-user"; groups = [] };
  sdcard = codes "/dev/sdX";
  stm_socket = codes "/run/stm.socket";
}
