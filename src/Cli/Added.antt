-- ===== src/Cli/Added.antt =====
-- A component that is added while no daemon runs.
use mcphub.Prelude.{
  ◌⊎◌, map, filter, not, split, trim_space, eqb_iff, arith, ◌≡◌, ◌≢◌, refl, sym, ap, ◌∙◌, subst,
  true, false, ◌&&◌, Option, none, some, List, [], ◌∷◌, ◌++◌, Text, str, eqb, All, lookup,
  lookup-insert_self, lookup-insert_ne, fields, if◌then◌else◌, Bool-cases, Option-cases, inl, inr,
  is_some,
}
use mcphub.Auth.Store.{Result, ok}
use mcphub.Connect.Daemon.{
  ComponentConfig, Config, Daemon, start_component, start_all, defaults, no_connection, or_else,
}
use mcphub.Cli.Components.{
  hosts, AddFlags, DaemonFlags, down, up, saved, load, add_config, daemon_config, component_of,
  add_command, daemon_command, file_of, kept, submit, add_loaded, daemon_loaded, daemon_saved,
  start,
}

-- The component has the settings of the flags: its name, transport and URL, the command and its arguments
-- as the fields of the flag, the hosts that are not blank, trimmed, and no headers; and it is enabled.
abbrev pub HasSettings : Text → AddFlags → ComponentConfig → Type 0
HasSettings name flags k =
    (k.name ≡ name)
    × (k.transport ≡ flags.transport)
    × (((flags.command ≡ []) × (k.command ≡ []) × (k.args ≡ []))
        ⊎ ((flags.command ≢ []) × (fields flags.command ≡ k.command ∷ k.args)))
    × (k.url ≡ flags.url)
    × (k.headers ≡ [])
    × (k.allow_hosts ≡ filter (λ h. not (eqb h [])) (map trim_space (split b',' flags.allow_host)))
    × (k.enabled ≡ true)

component_eq :
    (a b : ComponentConfig)
    → a.name ≡ b.name
    → a.transport ≡ b.transport
    → a.command ≡ b.command
    → a.args ≡ b.args
    → a.url ≡ b.url
    → a.headers ≡ b.headers
    → a.allow_hosts ≡ b.allow_hosts
    → a.enabled ≡ b.enabled
    → a ≡ b
component_eq a b n t c g u h l e = λ i. record {
  name = n i;
  transport = t i;
  command = c i;
  args = g i;
  url = u i;
  headers = h i;
  allow_hosts = l i;
  enabled = e i;
}

hosts_lem : (hs : List Text) → hosts hs ≡ filter (λ h. not (eqb h [])) (map trim_space hs)
hosts_lem [] = refl
hosts_lem (h ∷ hs) = elim (Bool-cases (eqb (trim_space h) [])) [
  | inl blank ↦ rw blank (hosts_lem hs)
  | inr full ↦ rw full (ap (λ xs. trim_space h ∷ xs) (hosts_lem hs))
]

component_of-HasSettings :
    (name : Text) (flags : AddFlags) (k : ComponentConfig)
    → HasSettings name flags k
    → component_of name flags ≡ some k
unfolding component_of
component_of-HasSettings name flags k (n, t, inl (none_of, c, g), u, h, l, e) =
    let empty : eqb flags.command [] ≡ true = (eqb_iff flags.command []).1 none_of in
    rw empty (
      ap some (
        component_eq _ k (sym n) (sym t) (sym c) (sym g) (sym u) (sym h)
          (hosts_lem (split b',' flags.allow_host) ∙ sym l) (sym e)))
component_of-HasSettings name flags k (n, t, inr (some_of, fs), u, h, l, e) =
    let full : eqb flags.command [] ≡ false = ground (arith, eqb_iff flags.command []) in
    rw (full, fs)
      (ap some (
        component_eq _ k (sym n) (sym t) refl refl (sym u) (sym h)
          (hosts_lem (split b',' flags.allow_host) ∙ sym l) (sym e)))

-- The component can be started: its connector is made, and one for stdio names a command.
abbrev pub Starts : (ComponentConfig → Option Text) → ComponentConfig → Type 0
Starts launch c = (launch c ≡ none) × ((eqb c.transport (str "stdio") && eqb c.command []) ≡ false)

-- No component of the list has the name.
abbrev pub IsNew : Text → List ComponentConfig → Type 0
IsNew name cs = All (λ (x : ComponentConfig). x.name ≢ name) cs

module _ {F : Type 0} (launch : ComponentConfig → Option Text) where
  start_component_others :
      (c : ComponentConfig) (name : Text) (d : Daemon F)
      → c.name ≢ name
      → lookup name (start_component launch c d).1.runtimes ≡ lookup name d.runtimes
  unfolding start_component
  start_component_others c name d ne = elim (Bool-cases (is_some (lookup c.name d.runtimes))) [
    | inl e ↦ rw e refl
    | inr e ↦ elim (Bool-cases (eqb c.transport (str "stdio") && eqb c.command [])) [
      | inl s ↦ rw (e, s) refl
      | inr s ↦ elim (Option-cases (launch c)) [
        | inl l ↦ rw (e, s, l) (lookup-insert_ne c.name name c d.runtimes (λ q. ne (sym q)))
        | inr (x, l) ↦ rw (e, s, l) refl
      ]
    ]
  ]

  start_component_self :
      (c : ComponentConfig) (d : Daemon F)
      → lookup c.name d.runtimes ≡ none
      → Starts launch c
      → lookup c.name (start_component launch c d).1.runtimes ≡ some c
  unfolding start_component
  start_component_self c d new h = rw (new, h.1, h.0) (lookup-insert_self c.name c d.runtimes)

  start_all_new :
      (cs : List ComponentConfig) (c : ComponentConfig) (d : Daemon F)
      → IsNew c.name cs
      → lookup c.name d.runtimes ≡ none
      → c.enabled ≡ true
      → Starts launch c
      → lookup c.name (start_all launch (cs ++ (c ∷ [])) d).runtimes ≡ some c
  unfolding start_all
  start_all_new [] c d new missing on h =
      ap (λ b. lookup c.name (if b then (start_component launch c d).1 else d).runtimes) on
      ∙ start_component_self c d missing h
  start_all_new (x ∷ xs) c d new missing on h = elim (Bool-cases x.enabled) [
    | inl e ↦
        ap
          (λ b.
            lookup c.name
              (start_all launch (xs ++ (c ∷ []))
                (if b then (start_component launch x d).1 else d)).runtimes)
          e
        ∙ start_all_new xs c (start_component launch x d).1 new.1
            (start_component_others x c.name d new.0 ∙ missing) on h
    | inr e ↦
        ap
          (λ b.
            lookup c.name
              (start_all launch (xs ++ (c ∷ []))
                (if b then (start_component launch x d).1 else d)).runtimes)
          e
        ∙ start_all_new xs c d new.1 missing on h
  ]

module _ {F : Type 0} (launch : ComponentConfig → Option Text)
    (save : Text → Config → F → Option Text × F) (read : Text → F → Result (Option Config))
    (default_path default_socket : Text)
    (saves : (p : Text) (c : Config) (f : F) → (save p c f).0 ≡ none)
    (reads : (p : Text) (c : Config) (f : F) → read p (save p c f).1 ≡ ok (some c)) where
  kept_lem :
      (p : Text) (c : Config) (f : F)
      → kept launch save read default_path default_socket down (save p c f)
        ≡ (saved, down (save p c f).1)
  kept_lem p c f =
      ap (λ e. kept launch save read default_path default_socket down (e, (save p c f).1))
        (saves p c f)

  -- Where no daemon runs, `add` of a new component writes the configuration with it at the end.
  added_lem :
      (name : Text) (flags : AddFlags) (f : F) (c : Config) (k : ComponentConfig)
      → let p = or_else flags.config default_path in
        load (read p f) ≡ ok c
        → component_of name flags ≡ some k
        → add_command launch save read default_path default_socket name flags (down f) ≡ (
          saved,
          down
              (save p
                (record (add_config name flags c) { components = c.components ++ (k ∷ []) })
                f).1,
        )
  unfolding add_command add_config
  added_lem name flags f c k loaded made =
      let p = or_else flags.config default_path in
      ap (λ r. add_loaded launch save read default_path default_socket p name flags r (down f))
        loaded
      ∙ ap
          (λ o.
            submit launch save read default_path default_socket p o (add_config name flags c)
              (down f))
          made
      ∙ kept_lem p (record (add_config name flags c) { components = c.components ++ (k ∷ []) }) f

  started_lem :
      (flags : DaemonFlags) (p : Text) (c : Config) (f : F)
      → or_else flags.config default_path ≡ p
      → daemon_command launch save read default_path default_socket none flags (save p c f).1
        ≡ start launch save read default_path default_socket flags.socket p none
            (ok (defaults (daemon_config flags (defaults c))))
            (save p (daemon_config flags (defaults c)) (save p c f).1).1
  unfolding daemon_command load
  started_lem flags p c f path =
      let g = (save p c f).1 in
      let c2 = daemon_config flags (defaults c) in
      ap
        (λ q.
          daemon_loaded launch save read default_path default_socket q none flags (load (read q g))
            g)
        path
      ∙ ap (λ r. daemon_loaded launch save read default_path default_socket p none flags (load r) g)
          (reads p c f)
      ∙ ap
          (λ e.
            daemon_saved launch save read default_path default_socket flags.socket p none
              (e, (save p c2 g).1))
          (saves p c2 g)
      ∙ ap
          (λ r.
            start launch save read default_path default_socket flags.socket p none (load r)
              (save p c2 g).1)
          (reads p c2 g)

  -- What `add` saves while no daemon runs, the daemon runs when it is started with the same configuration
  -- file: `add` of a name that is not configured ends without an error, the daemon then starts, and a
  -- component with the settings of the flags runs under the name. The file can be read and written, what is
  -- written is read back, the control socket can be made, the flag for the command is empty or has a field,
  -- and the component can be started.
  pub add-daemon :
      (name : Text) (flags : AddFlags) (daemon_flags : DaemonFlags) (f : F) (c : Config)
      (k : ComponentConfig)
      → or_else daemon_flags.config default_path ≡ or_else flags.config default_path
      → load (read (or_else flags.config default_path) f) ≡ ok c
      → HasSettings name flags k
      → IsNew name c.components
      → Starts launch k
      → let (outcome, m) =
          add_command launch save read default_path default_socket name flags (down f) in
        (outcome ≡ saved)
        × ((d : Daemon F) × (daemon_command launch save read default_path default_socket none
                daemon_flags
                (file_of launch save read default_path default_socket m)
              ≡ (
                none,
                up
                    (or_else daemon_flags.socket default_socket)
                    (or_else flags.config default_path)
                    d,
              ))
            × (lookup name d.runtimes ≡ some k))
  unfolding start_all defaults daemon_config add_config lookup
  add-daemon name flags daemon_flags f c k same_file loaded settings new starts =
      subst
        (λ x.
          (x.0 ≡ saved)
          × ((d : Daemon F) × (daemon_command launch save read default_path default_socket none
                  daemon_flags (file_of launch save read default_path default_socket x.1)
                ≡ (none, up (or_else daemon_flags.socket default_socket) p d))
              × (lookup name d.runtimes ≡ some k)))
        (sym (added_lem name flags f c k loaded (component_of-HasSettings name flags k settings)))
        (refl, (running, started_lem daemon_flags p c1 f same_file, runs))
    where
      p : Text
      p = or_else flags.config default_path

      c1 : Config
      c1 = record (add_config name flags c) { components = c.components ++ (k ∷ []) }

      c2 : Config
      c2 = daemon_config daemon_flags (defaults c1)

      running : Daemon F
      running = start_all launch (c.components ++ (k ∷ [])) (record {
        cfg = defaults c2;
        runtimes = [];
        tunnel = no_connection;
        file = (save p c2 (save p c1 f).1).1;
      })

      runs : lookup name running.runtimes ≡ some k
      runs =
          subst (λ n. lookup n running.runtimes ≡ some k) settings.0
            (start_all_new launch c.components k _
              (subst (λ n. IsNew n c.components) (sym settings.0) new) refl settings.6 starts)
