-- ===== src/Registry/Snapshot.antt =====
-- Snapshot of internal/registry/registry.go: the tables as lists, by name.
use mcphub.Prelude.{List, values, sort}
use mcphub.Registry.{Registry, ConnectInstance, RegisteredComponent}

unfoldable pub snapshot : Registry → List ConnectInstance × List RegisteredComponent
snapshot r = (
  sort (λ (c : ConnectInstance). c.name) (values r.connects),
  sort (λ (c : RegisteredComponent). c.name) (values r.components),
)
