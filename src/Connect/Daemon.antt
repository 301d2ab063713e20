-- ===== src/Connect/Daemon.antt =====
-- Daemon of internal/connect/daemon.go, with the data of internal/connect/config.go: the control
-- requests, and starting and stopping components. `F` is the configuration file, which `save`
-- writes (Store.Save); `launch` makes and starts the connector of a component.
pub mod Running
pub mod Removal
pub mod Backoff
pub mod Control
use mathlib.Core.Option
use mcphub.Prelude.{
  ℕ, ◌*◌, Bool, true, false, not, ◌&&◌, ◌||◌, Option, none, some, List, [], ◌∷◌, ◌++◌, Text, str,
  eqb, Map, lookup, insert, erase, keys, any, is_some, ltb, if◌then◌else◌,
}

pub record ComponentConfig : Type 0 where
  pub name : Text
  pub transport : Text
  pub command : Text
  pub args : List Text
  pub url : Text
  pub headers : Map Text
  pub allow_hosts : List Text
  pub enabled : Bool

pub record Config : Type 0 where
  pub gateway_url : Text
  pub gateway_token : Text
  pub tenant_id : Text
  pub connect_id : Text
  pub connect_name : Text
  pub version : Text
  pub components : List ComponentConfig

-- The connection of the tunnel, and whether the daemon closed it.
pub data Connection : Type 0 where
  no_connection is_open is_closed : Connection

-- A runtime is named by its configuration.
pub record Daemon (F : Type 0) : Type 0 where
  pub cfg : Config
  pub runtimes : Map ComponentConfig
  pub tunnel : Connection
  pub file : F

pub data Response : Type 0 where
  status : ℕ → Response
  error : Text → ℕ → Response
  component : ComponentConfig → Response
  switched : Text → Bool → Response
  health : Text → Option Text → Response

abbrev pub close_tunnel : Connection → Connection
close_tunnel no_connection = no_connection
close_tunnel is_open = is_closed
close_tunnel is_closed = is_closed

abbrev pub is_post : Text → Bool
is_post method = eqb method (str "POST")

-- `Load`, on the configuration that the file holds: the defaults of what is empty.
abbrev pub or_else : Text → Text → Text
or_else a b = if eqb a [] then b else a

unfoldable pub defaults : Config → Config
defaults c = record c {
  gateway_url = or_else c.gateway_url (str "ws://127.0.0.1:3080/tunnel");
  tenant_id = or_else c.tenant_id (str "demo");
  version = or_else c.version (str "0.1.0");
}

-- The loop of `setEnabled`: the first component with the name, changed, in its list.
abbrev pub enable_first :
    Text → Bool → List ComponentConfig → Option (ComponentConfig × List ComponentConfig)
enable_first name b [] = none
enable_first name b (c ∷ cs) =
    let changed = record c { enabled = b } in
    let rest = Option.map (λ x. (x.0, c ∷ x.1)) (enable_first name b cs) in
    if eqb c.name name then some (changed, changed ∷ cs) else rest

module _ {F : Type 0} (launch : ComponentConfig → Option Text) where
  abbrev pub launched : Option Text → ComponentConfig → Daemon F → Option Text × Daemon F
  launched (some e) c d = (some e, d)
  launched none c d =
      (none, record d { runtimes = insert c.name c d.runtimes; tunnel = close_tunnel d.tunnel })

  -- `startComponentLocked`
  unfoldable pub start_component : ComponentConfig → Daemon F → Option Text × Daemon F
  start_component c d =
      if is_some (lookup c.name d.runtimes)
      then (none, d)
      else if eqb c.transport (str "stdio") && eqb c.command []
      then (some (str "command is required"), d)
      else launched (launch c) c d

  -- The loop of `Start` over the configured components; an error of one is dropped.
  unfoldable pub start_all : List ComponentConfig → Daemon F → Daemon F
  unfolding start_component
  start_all [] d = d
  start_all (c ∷ cs) d = start_all cs (if c.enabled then (start_component c d).1 else d)

  abbrev pub stop_found : Option ComponentConfig → Text → Daemon F → Daemon F
  stop_found none name d = d
  stop_found (some r) name d = record d {
    runtimes = erase name d.runtimes;
    tunnel = close_tunnel d.tunnel;
  }

  -- `stopComponentLocked`
  unfoldable pub stop_component : Text → Daemon F → Daemon F
  stop_component name d = stop_found (lookup name d.runtimes) name d

  abbrev pub stop_each : List Text → Daemon F → Daemon F
  stop_each [] d = d
  stop_each (n ∷ ns) d = stop_each ns (stop_component n d)

  -- `Stop`
  unfoldable pub stop : Daemon F → Daemon F
  unfolding stop_component
  stop d = stop_each (keys d.runtimes) d

  module _ (save : Config → F → Option Text × F) where
    abbrev pub started : ComponentConfig → Option Text × Daemon F → Response × Daemon F
    started c (some e, d) = (error e 500, d)
    started c (none, d) = (component c, d)

    abbrev pub added : ComponentConfig → Option Text × F → Daemon F → Response × Daemon F
    added c (some e, f) d = (error e 500, record d { file = f })
    added c (none, f) d = started c (start_component c (record d { file = f }))

    -- `components` on a POST, with the decoded body, none where it cannot be decoded.
    unfoldable pub add : Option ComponentConfig → Daemon F → Response × Daemon F
    unfolding start_component
    add none d = (error (str "invalid component") 400, d)
    add (some c) d =
        if eqb c.name []
        then (error (str "invalid component") 400, d)
        else if any (λ x. eqb x.name c.name) d.cfg.components
        then (error (str "component already exists") 409, d)
        else let c = record c { enabled = true } in
          let cfg = record d.cfg { components = d.cfg.components ++ (c ∷ []) } in
          added c (save cfg d.file) (record d { cfg = cfg })

    -- The loop of `component` on DELETE: whether the name was found, what is left, and the
    -- runtimes that were stopped on the way.
    abbrev pub remove_loop :
        Text → List ComponentConfig → Daemon F → (Bool × List ComponentConfig) × Daemon F
    remove_loop name [] d = ((false, []), d)
    remove_loop name (c ∷ cs) d =
        let ((found, next), e) = remove_loop name cs (stop_component name d) in
        let ((found', next'), e') = remove_loop name cs d in
        if eqb c.name name then ((true, next), e) else ((found', c ∷ next'), e')

    abbrev pub removed : (Bool × List ComponentConfig) × Daemon F → Response × Daemon F
    removed ((false, next), d) = (status 404, d)
    removed ((true, next), d) =
        let cfg = record d.cfg { components = next } in
        (status 204, record d { cfg = cfg; file = (save cfg d.file).1 })

    unfoldable pub remove : Text → Daemon F → Response × Daemon F
    unfolding stop_component
    remove name d = removed (remove_loop name d.cfg.components d)

    abbrev pub switched_saved : Text → Bool → Option Text × F → Daemon F → Response × Daemon F
    switched_saved name b (some e, f) d = (error e 500, record d { file = f })
    switched_saved name b (none, f) d = (switched name b, record d { file = f })

    abbrev pub switch_started : Text → Option Text × Daemon F → Response × Daemon F
    switch_started name (some e, d) = (error e 500, d)
    switch_started name (none, d) = switched_saved name true (save d.cfg d.file) d

    abbrev pub switch_found :
        Option (ComponentConfig × List ComponentConfig)
        → Text
        → Bool
        → Daemon F
        → Response × Daemon F
    switch_found none name b d = (status 404, d)
    switch_found (some (c, cs)) name true d =
        switch_started name
          (start_component c (record d { cfg = record d.cfg { components = cs } }))
    switch_found (some (c, cs)) name false d =
        let d = stop_component name (record d { cfg = record d.cfg { components = cs } }) in
        switched_saved name false (save d.cfg d.file) d

    unfoldable pub set_enabled : Text → Text → Bool → Daemon F → Response × Daemon F
    unfolding start_component stop_component
    set_enabled method name b d =
        if not (is_post method)
        then (status 405, d)
        else switch_found (enable_first name b d.cfg.components) name b d
