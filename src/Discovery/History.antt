-- ===== src/Discovery/History.antt =====
-- The operations of the service as calls, in any sequence.
use mcphub.Prelude.{List, [], ◌∷◌, Text}
use mcphub.Discovery.Types.{Tool, Group, Service}
use mcphub.Discovery.Groups.{ensure_default, upsert_group, update_group, delete_group, list_groups}
use mcphub.Discovery.Tools.{add_tool, attach_tool, detach_tool, replace_tools, group_tools}

pub data Call : Type 0 where
  ensures_default lists_groups : Call
  upserts updates : Group → Call
  deletes lists_tools : Text → Call
  adds attaches : Text → Tool → Call
  detaches : Text → Text → Text → Call
  replaces : Text → List Tool → Call

-- The state that a call for a tenant leaves, whether it fails or not.
unfoldable pub step : {S : Type 0} → Text → Call → Service S → Service S
step tenant ensures_default s = ensure_default tenant s
step tenant lists_groups s = (list_groups tenant s).1
step tenant (upserts g) s = (upsert_group tenant g s).1
step tenant (updates g) s = (update_group tenant g s).1
step tenant (deletes id) s = (delete_group tenant id s).1
step tenant (lists_tools group) s = (group_tools tenant group s).1
step tenant (adds group t) s = add_tool tenant group t s
step tenant (attaches group t) s = (attach_tool tenant group t s).1
step tenant (detaches group component tool) s = (detach_tool tenant group component tool s).1
step tenant (replaces component ts) s = replace_tools tenant component ts s

unfoldable pub run : {S : Type 0} → List (Text × Call) → Service S → Service S
unfolding step
run [] s = s
run ((tenant, call) ∷ calls) s = run calls (step tenant call s)
