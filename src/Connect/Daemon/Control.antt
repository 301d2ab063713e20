-- ===== src/Connect/Daemon/Control.antt =====
-- Control requests in any sequence.
use mcphub.Prelude.{Bool, Option, List, [], ◌∷◌, Text}
use mcphub.Connect.Daemon.{ComponentConfig, Config, Daemon, add, remove, set_enabled}
use mcphub.Connect.Daemon.Running.{IsConfigured, set_enabled-IsConfigured, add-IsConfigured}
use mcphub.Connect.Daemon.Removal.{remove-IsConfigured}

pub data Control : Type 0 where
  adds : Option ComponentConfig → Control
  removes : Text → Control
  switches : Text → Text → Bool → Control

module _ {F : Type 0} (launch : ComponentConfig → Option Text)
    (save : Config → F → Option Text × F) where
  unfoldable pub step : Control → Daemon F → Daemon F
  step (adds c) d = (add launch save c d).1
  step (removes name) d = (remove launch save name d).1
  step (switches method name b) d = (set_enabled launch save method name b d).1

  unfoldable pub run : List Control → Daemon F → Daemon F
  unfolding step
  run [] d = d
  run (c ∷ cs) d = run cs (step c d)

  step-IsConfigured : (c : Control) (d : Daemon F) → IsConfigured d → IsConfigured (step c d)
  unfolding step
  step-IsConfigured (adds c) d h = add-IsConfigured launch save c d h
  step-IsConfigured (removes name) d h = remove-IsConfigured launch save name d h
  step-IsConfigured (switches method name b) d h =
      set_enabled-IsConfigured launch save method name b d h

  -- After any control requests that add, remove, enable or disable components, also where starting one or
  -- saving the configuration fails, only configured and enabled components run, if that held before.
  pub run-IsConfigured :
      (cs : List Control) (d : Daemon F) → IsConfigured d → IsConfigured (run cs d)
  unfolding run
  run-IsConfigured [] d h = h
  run-IsConfigured (c ∷ cs) d h = run-IsConfigured cs (step c d) (step-IsConfigured c d h)
