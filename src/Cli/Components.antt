-- ===== src/Cli/Components.antt =====
-- `add` and `daemon` of cmd/mcp-connect/main.go, with NewDaemon and Start of internal/connect/daemon.go and
-- Load of internal/connect/config.go. `read` reads the file at a path, none where it does not exist, and
-- `save` writes it; `listen` is the error of making the control socket. The flags are parsed. The default
-- path and the default socket are those of the user who runs the commands.
use mcphub.Prelude.{
  ℕ, true, Option, none, some, List, [], ◌∷◌, ◌++◌, Text, str, eqb, fields, split, trim_space, leb,
  if◌then◌else◌,
}
use mcphub.Auth.Store.{Result, ok, err}
use mcphub.Connect.Daemon.{
  ComponentConfig, Config, Daemon, Response, or_else, defaults, start_all, no_connection, status,
  error,
}
use mcphub.Connect.Daemon as Daemon

pub record AddFlags : Type 0 where
  pub config : Text
  pub transport : Text
  pub command : Text
  pub url : Text
  pub allow_host : Text
  pub gateway : Text

pub record DaemonFlags : Type 0 where
  pub config : Text
  pub socket : Text
  pub gateway : Text
  pub connect_id : Text
  pub tenant_id : Text
  pub connect_name : Text

-- The machine: its files, or the daemon that runs on it, with its socket and the path of its configuration.
pub data Machine (F : Type 0) : Type 0 where
  down : F → Machine F
  up : Text → Text → Daemon F → Machine F

-- How `add` ends. A list of no fields has no first one, which is a panic.
pub data Outcome : Type 0 where
  panicked saved added : Outcome
  fatal : Text → Outcome
  refused : Response → Outcome

-- `Load`
unfoldable pub load : Result (Option Config) → Result Config
unfolding defaults
load (err e) = err e
load (ok none) = ok (record {
  gateway_url = str "ws://127.0.0.1:3080/tunnel";
  gateway_token = [];
  tenant_id = str "demo";
  connect_id = [];
  connect_name = [];
  version = str "0.1.0";
  components = [];
})
load (ok (some c)) = ok (defaults c)

-- `c`, as `add` and `daemon` change it.
unfoldable pub add_config : Text → AddFlags → Config → Config
add_config name flags c =
    let id = or_else c.connect_id name in
    record c {
      gateway_url = or_else flags.gateway c.gateway_url;
      connect_id = id;
      connect_name = or_else c.connect_name id;
    }

unfoldable pub daemon_config : DaemonFlags → Config → Config
daemon_config flags c =
    let id = or_else (or_else flags.connect_id c.connect_id) (str "local") in
    record c {
      gateway_url = or_else flags.gateway c.gateway_url;
      tenant_id = or_else flags.tenant_id c.tenant_id;
      connect_id = id;
      connect_name = or_else (or_else flags.connect_name c.connect_name) id;
    }

abbrev pub with_command : List Text → ComponentConfig → Option ComponentConfig
with_command [] c = none
with_command (f ∷ fs) c = some (record c { command = f; args = fs })

-- The loop over the allowed hosts.
abbrev pub hosts : List Text → List Text
hosts [] = []
hosts (h ∷ hs) = let rest = hosts hs in if eqb (trim_space h) [] then rest else trim_space h ∷ rest

-- `cc`
unfoldable pub component_of : Text → AddFlags → Option ComponentConfig
unfolding fields
component_of name flags =
    let c : ComponentConfig = record {
      name = name;
      transport = flags.transport;
      command = [];
      args = [];
      url = flags.url;
      headers = [];
      allow_hosts = hosts (split b',' flags.allow_host);
      enabled = true;
    } in
    if eqb flags.command [] then some c else with_command (fields flags.command) c

-- The status of an answer to `add`.
abbrev pub code_of : Response → ℕ
code_of (status n) = n
code_of (error e n) = n
code_of _ = 200

module _ {F : Type 0} (launch : ComponentConfig → Option Text)
    (save : Text → Config → F → Option Text × F) (read : Text → F → Result (Option Config))
    (default_path default_socket : Text) where
  -- `NewStore`
  abbrev pub path_of : Text → Text
  path_of config = or_else config default_path

  abbrev pub answered : Text → Text → Response × Daemon F → Outcome × Machine F
  answered socket path (r, d) = (if leb 300 (code_of r) then refused r else added, up socket path d)

  abbrev pub kept : (F → Machine F) → Option Text × F → Outcome × Machine F
  kept machine (some e, f) = (fatal e, machine f)
  kept machine (none, f) = (saved, machine f)

  -- The request to the daemon at the default socket, and the file where there is none.
  abbrev pub submit : Text → Option ComponentConfig → Config → Machine F → Outcome × Machine F
  submit path none c m = (panicked, m)
  submit path (some cc) c (up socket own d) =
      if eqb socket default_socket
      then answered socket own (Daemon.add launch (save own) (some cc) d)
      else kept (λ f. up socket own (record d { file = f }))
          (save path (record c { components = c.components ++ (cc ∷ []) }) d.file)
  submit path (some cc) c (down f) =
      kept down (save path (record c { components = c.components ++ (cc ∷ []) }) f)

  abbrev pub file_of : Machine F → F
  file_of (down f) = f
  file_of (up socket own d) = d.file

  abbrev pub add_loaded : Text → Text → AddFlags → Result Config → Machine F → Outcome × Machine F
  add_loaded path name flags (err e) m = (fatal e, m)
  add_loaded path name flags (ok c) m =
      submit path (component_of name flags) (add_config name flags c) m

  unfoldable pub add_command : Text → AddFlags → Machine F → Outcome × Machine F
  unfolding load add_config component_of
  add_command name flags m =
      let path = path_of flags.config in add_loaded path name flags (load (read path (file_of m))) m

  -- `NewDaemon` and `Start`
  abbrev pub start : Text → Text → Option Text → Result Config → F → Option Text × Machine F
  start socket path listen (err e) f = (some e, down f)
  start socket path (some e) (ok c) f = (some e, down f)
  start socket path none (ok c) f = (
    none,
    up (or_else socket default_socket) path (
        start_all launch c.components
          (record { cfg = c; runtimes = []; tunnel = no_connection; file = f })),
  )

  abbrev pub daemon_saved : Text → Text → Option Text → Option Text × F → Option Text × Machine F
  daemon_saved socket path listen (some e, f) = (some e, down f)
  daemon_saved socket path listen (none, f) = start socket path listen (load (read path f)) f

  abbrev pub daemon_loaded :
      Text → Option Text → DaemonFlags → Result Config → F → Option Text × Machine F
  daemon_loaded path listen flags (err e) f = (some e, down f)
  daemon_loaded path listen flags (ok c) f =
      daemon_saved flags.socket path listen (save path (daemon_config flags c) f)

  -- On a machine where no daemon runs.
  unfoldable pub daemon_command : Option Text → DaemonFlags → F → Option Text × Machine F
  unfolding load daemon_config
  daemon_command listen flags f =
      let path = path_of flags.config in daemon_loaded path listen flags (load (read path f)) f
