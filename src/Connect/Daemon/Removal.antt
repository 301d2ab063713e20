-- ===== src/Connect/Daemon/Removal.antt =====
-- Removing a component.
use mcphub.Prelude.{
  ◌≡◌, ◌≢◌, refl, sym, subst, ◌∙◌, Bool, true, false, Option, some, inl, inr, List, [], ◌∷◌, Text,
  eqb, eqb_iff, lookup, arith, if◌then◌else◌,
}
use mcphub.Connect.Daemon.{
  ComponentConfig, Config, Daemon, stop_component, remove, remove_loop, removed,
}
use mcphub.Connect.Daemon.Running.{Enabled, IsConfigured, stopped, stop_component-cfg}

module _ {F : Type 0} (launch : ComponentConfig → Option Text)
    (save : Config → F → Option Text × F) where
  -- What the loop keeps: the configuration, runtimes that were there, none of the name if it was
  -- found, and every other component that is enabled.
  Loop : Text → List ComponentConfig → Daemon F → (Bool × List ComponentConfig) × Daemon F → Type 0
  Loop name cs d ((found, next), e) =
      (e.cfg ≡ d.cfg)
      × ((n : Text) (r : ComponentConfig)
          → lookup n e.runtimes ≡ some r
          → (lookup n d.runtimes ≡ some r) × (found ≡ true → n ≢ name))
      × ((other : Text) → other ≢ name → Enabled other cs → Enabled other next)

  remove_loop-Loop :
      (name : Text) (cs : List ComponentConfig) (d : Daemon F)
      → Loop name cs d (remove_loop launch save name cs d)
  unfolding Loop Enabled
  remove_loop-Loop name [] d = (refl, λ n r found. (found, λ e. ground arith), λ other ne on. on)
  remove_loop-Loop name (c ∷ cs) d =
      choose (eqb c.name name) refl (remove_loop launch save name cs (stop_component launch name d))
        (remove_loop launch save name cs d)
        (remove_loop-Loop name cs (stop_component launch name d)) (remove_loop-Loop name cs d)
    where
      choose :
          (b : Bool)
          → eqb c.name name ≡ b
          → (x y : (Bool × List ComponentConfig) × Daemon F)
          → Loop name cs (stop_component launch name d) x
          → Loop name cs d y
          → Loop name (c ∷ cs) d (if b then ((true, x.0.1), x.1) else ((y.0.0, c ∷ y.0.1), y.1))
      choose true e x y (cfg, kept, others) z = (
        cfg ∙ stop_component-cfg launch name d,
        λ n r found.
            let (ne, before) = stopped launch name d n r (kept n r found).0 in (before, λ t. ne),
        λ other ne on. elim on [
          | inl here ↦ ground (arith, here.0, ne, eqb_iff c.name name)
          | inr there ↦ others other ne there
        ],
      )
      choose false e x y z (cfg, kept, others) = (
        cfg,
        kept,
        λ other ne on. elim on [ inl here ↦ inl here | inr there ↦ inr (others other ne there) ],
      )

  -- Removing a component keeps it so that only configured and enabled components run.
  pub remove-IsConfigured :
      (name : Text) (d : Daemon F) → IsConfigured d → IsConfigured (remove launch save name d).1
  unfolding remove IsConfigured Loop
  remove-IsConfigured name d h =
      after (remove_loop launch save name d.cfg.components d)
        (remove_loop-Loop name d.cfg.components d)
    where
      after :
          (x : (Bool × List ComponentConfig) × Daemon F)
          → Loop name d.cfg.components d x
          → IsConfigured (removed launch save x).1
      after ((false, next), e) (cfg, kept, others) =
          λ n r found. subst (λ y. Enabled n y.components) (sym cfg) (h n r (kept n r found).0)
      after ((true, next), e) (cfg, kept, others) =
          λ n r found. others n ((kept n r found).1 refl) (h n r (kept n r found).0)
