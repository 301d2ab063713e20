-- ===== src/Connect/Daemon/Running.antt =====
-- Which components run.
use mcphub.Prelude.{
  ◌≡◌, ◌≢◌, refl, sym, ap, subst, ◌∙◌, Bool, true, false, not, ◌&&◌, Option, none, some, ◌⊎◌, inl,
  inr, List, [], ◌∷◌, ◌++◌, Text, str, eqb, eqb_iff, eqb_refl, Any, lookup, found-insert,
  lookup-erase, arith, if_cases, Bool-cases, Option-cases, is_some, any, Any-append_left,
  Any-append_right,
}
use mcphub.Connect.Daemon.{
  ComponentConfig, Config, Daemon, Response, start_component, stop_component, stop_found, launched,
  add, set_enabled, switch_found, switch_started, switched_saved, started, added, enable_first,
  is_post,
}

-- The component is configured, and enabled.
unfoldable pub Enabled : Text → List ComponentConfig → Type 0
Enabled name cs = Any (λ (c : ComponentConfig). (c.name ≡ name) × (c.enabled ≡ true)) cs

-- Every component that runs is configured and enabled.
unfoldable pub IsConfigured : {F : Type 0} → Daemon F → Type 0
IsConfigured d =
    (name : Text) (r : ComponentConfig)
    → lookup name d.runtimes ≡ some r
    → Enabled name d.cfg.components

eqb_eq : (s t : Text) → eqb s t ≡ true → s ≡ t
eqb_eq s t e = ground (arith, eqb_iff s t)

eqb_ne : (s t : Text) → eqb s t ≡ false → s ≢ t
eqb_ne s t e = ground (arith, eqb_iff s t)

enable_first-cases :
    (name : Text) (b : Bool) (c : ComponentConfig) (cs : List ComponentConfig)
    (x : ComponentConfig × List ComponentConfig)
    → enable_first name b (c ∷ cs) ≡ some x
    → ((c.name ≡ name) × (x ≡ (record c { enabled = b }, record c { enabled = b } ∷ cs)))
      ⊎ ((y : ComponentConfig × List ComponentConfig) × (enable_first name b cs ≡ some y)
          × (x ≡ (y.0, c ∷ y.1)))
enable_first-cases name b c cs x e = elim (Bool-cases (eqb c.name name)) [
  | inl same ↦ inl (ground (arith, eqb_iff c.name name), ground arith)
  | inr other ↦ elim (Option-cases (enable_first name b cs)) [
    | inl n ↦ ground arith
    | inr (y, s) ↦ inr (y, s, ground arith)
  ]
]

enable_first-others :
    (name other : Text) (b : Bool) (cs : List ComponentConfig)
    (x : ComponentConfig × List ComponentConfig)
    → other ≢ name
    → enable_first name b cs ≡ some x
    → Enabled other cs
    → Enabled other x.1
unfolding Enabled
enable_first-others name other b [] x ne e on = ground arith
enable_first-others name other b (c ∷ cs) x ne e on = elim (enable_first-cases name b c cs x e) [
  | inl (same, x_is) ↦ elim on [
    | inl here ↦ absurd (ne (sym here.0 ∙ same))
    | inr there ↦ subst (λ z. Enabled other z.1) (sym x_is) (inr there)
  ]
  | inr (y, found, x_is) ↦
      subst (λ z. Enabled other z.1) (sym x_is)
        (elim on [
          | inl here ↦ inl here
          | inr there ↦ inr (enable_first-others name other b cs y ne found there)
        ])
]

enable_first_self :
    (name : Text) (b : Bool) (cs : List ComponentConfig)
    (x : ComponentConfig × List ComponentConfig)
    → enable_first name b cs ≡ some x
    → (x.0.name ≡ name) × (b ≡ true → Enabled name x.1)
unfolding Enabled
enable_first_self name b [] x e = ground arith
enable_first_self name b (c ∷ cs) x e = elim (enable_first-cases name b c cs x e) [
  | inl (same, x_is) ↦ (
    ap (λ z. z.0.name) x_is ∙ same,
    λ on. subst (λ z. Enabled name z.1) (sym x_is) (inl (same, on)),
  )
  | inr (y, found, x_is) ↦
      let rest = enable_first_self name b cs y found in
      (
        ap (λ z. z.0.name) x_is ∙ rest.0,
        λ on. subst (λ z. Enabled name z.1) (sym x_is) (inr (rest.1 on)),
      )
]

module _ {F : Type 0} (launch : ComponentConfig → Option Text) where
  start_component-cfg :
      (c : ComponentConfig) (d : Daemon F) → (start_component launch c d).1.cfg ≡ d.cfg
  unfolding start_component
  start_component-cfg c d = ground arith

  start_component-IsConfigured :
      (c : ComponentConfig) (d : Daemon F)
      → IsConfigured d
      → Enabled c.name d.cfg.components
      → IsConfigured (start_component launch c d).1
  unfolding start_component IsConfigured
  start_component-IsConfigured c d h on =
      let P = λ (x : Option Text × Daemon F). IsConfigured x.1 in
      if_cases P (is_some (lookup c.name d.runtimes)) _ _ h
        (if_cases P (eqb c.transport (str "stdio") && eqb c.command []) _ _ h (run (launch c)))
    where
      run : (o : Option Text) → IsConfigured (launched launch o c d).1
      run (some e) name r found = h name r found
      run none name r found = elim (found-insert c.name name c r d.runtimes found) [
        | inl here ↦ subst (λ n. Enabled n d.cfg.components) (sym here.0) on
        | inr there ↦ h name r there
      ]

  stop_component-IsConfigured :
      (name : Text) (d : Daemon F) → IsConfigured d → IsConfigured (stop_component launch name d)
  unfolding stop_component IsConfigured
  stop_component-IsConfigured name d h = run (lookup name d.runtimes)
    where
      run : (o : Option ComponentConfig) → IsConfigured (stop_found launch o name d)
      run none n r found = h n r found
      run (some x) n r found = ground (arith, lookup-erase name n d.runtimes, h n r)

  -- After `stop_component` the name has no runtime.
  stop_component-gone :
      (name : Text) (d : Daemon F) → lookup name (stop_component launch name d).runtimes ≡ none
  unfolding stop_component
  stop_component-gone name d = ground (arith, lookup-erase name name d.runtimes, eqb_refl name)

  pub stopped :
      (name : Text) (d : Daemon F) (n : Text) (r : ComponentConfig)
      → lookup n (stop_component launch name d).runtimes ≡ some r
      → (n ≢ name) × (lookup n d.runtimes ≡ some r)
  unfolding stop_component
  stopped name d n r found = split (lookup name d.runtimes) refl found
    where
      split :
          (o : Option ComponentConfig)
          → lookup name d.runtimes ≡ o
          → lookup n (stop_found launch o name d).runtimes ≡ some r
          → (n ≢ name) × (lookup n d.runtimes ≡ some r)
      split none e h = (λ same. ground (arith, ap (λ x. lookup x d.runtimes) same), h)
      split (some x) e h = (
        λ same. ground (arith, lookup-erase name n d.runtimes, eqb_iff name n),
        ground (arith, lookup-erase name n d.runtimes),
      )

  pub stop_component-cfg : (name : Text) (d : Daemon F) → (stop_component launch name d).cfg ≡ d.cfg
  unfolding stop_component
  stop_component-cfg name d = ground arith

  module _ (save : Config → F → Option Text × F) where
    switched_saved-IsConfigured :
        (name : Text) (b : Bool) (o : Option Text × F) (d : Daemon F)
        → IsConfigured d
        → IsConfigured (switched_saved launch save name b o d).1
    unfolding IsConfigured
    switched_saved-IsConfigured name b (some e, f) d h n r found = h n r found
    switched_saved-IsConfigured name b (none, f) d h n r found = h n r found

    switch_started-IsConfigured :
        (name : Text) (o : Option Text × Daemon F)
        → IsConfigured o.1
        → IsConfigured (switch_started launch save name o).1
    unfolding IsConfigured
    switch_started-IsConfigured name (some e, d) h = λ n r found. h n r found
    switch_started-IsConfigured name (none, d) h =
        switched_saved-IsConfigured name true (save d.cfg d.file) d h

    switch_found-IsConfigured :
        (name : Text) (b : Bool) (d : Daemon F)
        (o : Option (ComponentConfig × List ComponentConfig))
        → enable_first name b d.cfg.components ≡ o
        → IsConfigured d
        → IsConfigured (switch_found launch save o name b d).1
    unfolding IsConfigured
    switch_found-IsConfigured name b d none e h = λ n r found. h n r found
    switch_found-IsConfigured name true d (some (c, cs)) e h =
        let (same, on) = enable_first_self name true d.cfg.components (c, cs) e in
        let d' = record d { cfg = record d.cfg { components = cs } } in
        switch_started-IsConfigured name (start_component launch c d') (
          start_component-IsConfigured c d'
            (λ n r found. elim (Bool-cases (eqb n name)) [
              | inl is ↦ subst (λ x. Enabled x cs) (sym (eqb_eq n name is)) (on refl)
              | inr isnt ↦
                  enable_first-others name n true d.cfg.components (c, cs) (eqb_ne n name isnt) e
                    (h n r found)
            ])
            (subst (λ x. Enabled x cs) (sym same) (on refl)))
    switch_found-IsConfigured name false d (some (c, cs)) e h =
        let d' = stop_component launch name (record d { cfg = record d.cfg { components = cs } }) in
        switched_saved-IsConfigured name false (save d'.cfg d'.file) d' (λ n r found.
          let (ne, before) =
            stopped name (record d { cfg = record d.cfg { components = cs } }) n r found in
          subst (λ x. Enabled n x.components)
            (sym (stop_component-cfg name (record d { cfg = record d.cfg { components = cs } })))
            (enable_first-others name n false d.cfg.components (c, cs) ne e (h n r before)))

    -- Enabling or disabling a component keeps it so that only configured and enabled components
    -- run, also where starting it or saving the configuration fails.
    pub set_enabled-IsConfigured :
        (method name : Text) (b : Bool) (d : Daemon F)
        → IsConfigured d
        → IsConfigured (set_enabled launch save method name b d).1
    unfolding set_enabled
    set_enabled-IsConfigured method name b d h =
        if_cases (λ (x : Response × Daemon F). IsConfigured x.1) (not (is_post method)) _ _ h
          (switch_found-IsConfigured name b d (enable_first name b d.cfg.components) refl h)

    added-IsConfigured :
        (c : ComponentConfig) (o : Option Text × F) (d : Daemon F)
        → IsConfigured d
        → Enabled c.name d.cfg.components
        → IsConfigured (added launch save c o d).1
    unfolding IsConfigured
    added-IsConfigured c (some e, f) d h on = λ n r found. h n r found
    added-IsConfigured c (none, f) d h on =
        begun (start_component launch c (record d { file = f }))
          (start_component-IsConfigured c (record d { file = f }) h on)
      where
        begun :
            (o : Option Text × Daemon F)
            → IsConfigured o.1
            → IsConfigured (started launch save c o).1
        begun (some e, x) k n r found = k n r found
        begun (none, x) k n r found = k n r found

    -- Adding a component keeps it so that only configured and enabled components run.
    pub add-IsConfigured :
        (c : Option ComponentConfig) (d : Daemon F)
        → IsConfigured d
        → IsConfigured (add launch save c d).1
    unfolding add IsConfigured Enabled
    add-IsConfigured none d h = h
    add-IsConfigured (some c) d h =
        let P = λ (x : Response × Daemon F). IsConfigured x.1 in
        let c' = record c { enabled = true } in
        let cfg = record d.cfg { components = d.cfg.components ++ (c' ∷ []) } in
        if_cases P (eqb c.name []) _ _ h (
          if_cases P (any (λ x. eqb x.name c.name) d.cfg.components) _ _ h (
            added-IsConfigured c' (save cfg d.file) (record d { cfg = cfg })
              (λ n r found. Any-append_left _ d.cfg.components (c' ∷ []) (h n r found))
              (Any-append_right _ d.cfg.components (c' ∷ []) (inl (refl, refl)))))
