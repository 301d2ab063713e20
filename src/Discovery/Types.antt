-- ===== src/Discovery/Types.antt =====
-- The data of internal/discovery/service.go, and the interface of its persistent store.
use mcphub.Prelude.{Bool, false, Option, none, some, List, [], Text, Map, ℤ}

pub data Error : Type 0 where
  group_not_found group_not_allowed group_exists tool_not_found invoker_unavailable : Error
  storage : Text → Error

pub data Result (A : Type 0) : Type 0 where
  ok : A → Result A
  err : Error → Result A

pub record Tool : Type 0 where
  pub component_id : Text
  pub name : Text
  pub description : Text
  pub input_schema : Option Text
  pub required : List Text
  pub enabled : Bool

-- Reading a missing tool of a Go map gives the zero value.
abbrev pub zero_tool : Tool
zero_tool = record {
  component_id = [];
  name = [];
  description = [];
  input_schema = none;
  required = [];
  enabled = false;
}

pub record Group : Type 0 where
  pub id : Text
  pub name : Text
  pub description : Text
  pub tags : List Text
  pub is_default : Bool

pub record Identity : Type 0 where
  pub tenant_id : Text
  pub default_group : Text
  pub active_group : Text
  pub allowed_groups : List Text

pub record SearchRequest : Type 0 where
  pub identity : Identity
  pub query : Text
  pub limit : ℤ

pub record SearchResult : Type 0 where
  pub group : Group
  pub items : List Tool

pub record InvokeRequest : Type 0 where
  pub identity : Identity
  pub component_id : Text
  pub tool_name : Text
  pub arguments : Text

-- The function that carries a call out: tenant, component, tool and arguments.
abbrev pub Invoker : Type 0
Invoker = Text → Text → Text → Text → Result Text

-- The interface `Store`, over the state of what stands behind it. The error of a method that
-- writes is `some`.
pub record Backend (S : Type 0) : Type 0 where
  pub list_groups : Text → S → Result (List Group)
  pub create_group : Text → Group → S → Option Error × S
  pub update_group : Text → Group → S → Option Error × S
  pub delete_group : Text → Text → S → Option Error × S
  pub list_group_tools : Text → Text → S → Result (List Tool)
  pub attach_tool : Text → Text → Tool → S → Option Error × S
  pub detach_tool : Text → Text → Text → Text → S → Option Error × S
  pub replace_tools : Text → Text → List Tool → S → Option Error × S

-- The maps of the service: by tenant, then by group id or by tool key; a membership by tenant,
-- group and tool key.
pub record Service (S : Type 0) : Type 0 where
  pub groups : Map (Map Group)
  pub tools : Map (Map Tool)
  pub memberships : Map (Map (Map Bool))
  pub invoke : Option Invoker
  pub backend : Option (Backend S)
  pub store : S

-- A call that the backend is asked for first: its error, none where there is no backend, and the
-- state that it leaves.
abbrev pub asked :
    {S : Type 0} → Option (Backend S) → (Backend S → S → Option Error × S) → S → Option Error × S
asked none f s = (none, s)
asked (some b) f s = f b s
