-- ===== src/Types/Enums.antt =====
-- The string enumerations. A scope or a mode may be any string; `other` carries one that is none
-- of the constants.
use amsonia_core.Base.{Bool, true, false, Key}
use amsonia_core.Text.{Text, text_dec, codes}

pub data Scope : Type 0 where
  own workspace tenant : Scope
  other : Text → Scope

unfoldable pub scope_dec : Discrete Scope
unfolding text_dec
scope_dec own own = yes (cc)
scope_dec own workspace = no (λ e. cc)
scope_dec own tenant = no (λ e. cc)
scope_dec own (other t) = no (λ e. cc)
scope_dec workspace own = no (λ e. cc)
scope_dec workspace workspace = yes (cc)
scope_dec workspace tenant = no (λ e. cc)
scope_dec workspace (other t) = no (λ e. cc)
scope_dec tenant own = no (λ e. cc)
scope_dec tenant workspace = no (λ e. cc)
scope_dec tenant tenant = yes (cc)
scope_dec tenant (other t) = no (λ e. cc)
scope_dec (other s) own = no (λ e. cc)
scope_dec (other s) workspace = no (λ e. cc)
scope_dec (other s) tenant = no (λ e. cc)
scope_dec (other s) (other t) = elim (text_dec s t) [ yes p ↦ yes (cc) | no h ↦ no (λ e. h (cc)) ]

instance abbrev pub scope_key : Key Scope
scope_key = record { dec = scope_dec }

-- `switch scope { case ScopeOwn, ScopeWorkspace, ScopeTenant: default: … }`
abbrev pub is_scope : Scope → Bool
is_scope own = true
is_scope workspace = true
is_scope tenant = true
is_scope (other t) = false

-- The string that a scope is.
abbrev pub spelling : Scope → Text
spelling own = codes "own"
spelling workspace = codes "workspace"
spelling tenant = codes "tenant"
spelling (other t) = t

pub data ResourceMode : Type 0 where
  existing create tenant_action : ResourceMode
  other : Text → ResourceMode

pub data ReasonCode : Type 0 where
  allowed invalid_request permission_not_granted tenant_mismatch owner_mismatch : ReasonCode
  workspace_membership_missing workspace_role_denied invalid_policy dependency_unavailable :
      ReasonCode

pub data GrantProvenance : Type 0 where
  delegated bootstrap : GrantProvenance
  other : Text → GrantProvenance

pub data AuditOutcome : Type 0 where
  success noop denied conflict failed : AuditOutcome

pub data AuditPhase : Type 0 where
  result intent completed : AuditPhase
