-- ===== src/Authorizer/Tests.antt =====
-- The theorems on authorizer.go for a concrete authorizer.
use mathlib.Core.List.Perm
use amsonia_core.Base.{ℕ, ◌≡◌, List, [], ◌∷◌, Bool, ◌==◌, nat_key, if◌then◌else◌}
use amsonia_core.Text.{Text, text_key, codes}
use amsonia_core.Types.Errors.{ok, err, not_found}
use amsonia_core.Types.Enums.{Scope, ResourceMode}
use amsonia_core.Types.Records.{CheckRequest, EffectiveGrant}
use amsonia_core.Authorizer.{Authorizer, DeniedReason, merge_denied, check}
use amsonia_core.Authorizer.Denials.{merge_denied_comm, merge_denied_assoc}
use amsonia_core.Authorizer.Verdict.{expected}
use amsonia_core.Authorizer.Verdict.Proof.{check_lem}
use amsonia_core.Authorizer.Verdict.Stability.{rows, check_stable}

abbrev exact_fold : ℕ → ℕ → Bool
exact_fold a b = a == b

abbrev read_key : Text
read_key = codes "docs:page:read"

abbrev own_grant : EffectiveGrant
own_grant = record {
  role_id = codes "author";
  permission = read_key;
  scope = Scope.own;
  workspace_roles = [];
}

abbrev workspace_grant : EffectiveGrant
workspace_grant = record {
  role_id = codes "reader";
  permission = read_key;
  scope = Scope.workspace;
  workspace_roles = codes "editor" ∷ [];
}

abbrev two_grants : List EffectiveGrant
two_grants = own_grant ∷ workspace_grant ∷ []

abbrev two_grants_swapped : List EffectiveGrant
two_grants_swapped = workspace_grant ∷ own_grant ∷ []

abbrev authorizer : Authorizer
authorizer = record {
  catalog = (read_key, record { key = read_key; description = [] }) ∷ [];
  policies = λ tenant subject permission. ok two_grants;
  memberships = λ tenant workspace subject.
      if subject == codes "ann" then ok (record { role = codes "editor" }) else err not_found;
}

abbrev page_request : CheckRequest
page_request = record {
  principal = record { tenant_id = codes "t"; subject_id = codes "ann" };
  permission = read_key;
  mode = ResourceMode.existing;
  resource = record {
    tenant_id = codes "t";
    resource_id = codes "p";
    owner_subject_id = codes "bob";
    workspace_id = codes "w";
  };
}

check_lem_example :
    check exact_fold authorizer page_request ≡ expected exact_fold authorizer page_request
check_lem_example = check_lem exact_fold authorizer page_request

check_stable_example :
    check exact_fold authorizer page_request
    ≡ check exact_fold
        (record authorizer { policies = λ tenant subject permission. ok two_grants_swapped })
        page_request
check_stable_example =
    check_stable exact_fold authorizer page_request
      (λ tenant subject permission. ok two_grants_swapped)
      (λ tenant subject permission. rows (Perm.swap workspace_grant own_grant []))

merge_denied_comm_example :
    merge_denied DeniedReason.denied_owner_mismatch DeniedReason.denied_tenant_mismatch
    ≡ merge_denied DeniedReason.denied_tenant_mismatch DeniedReason.denied_owner_mismatch
merge_denied_comm_example =
    merge_denied_comm DeniedReason.denied_owner_mismatch DeniedReason.denied_tenant_mismatch

merge_denied_assoc_example :
    merge_denied
      (merge_denied DeniedReason.denied_owner_mismatch DeniedReason.denied_none)
      DeniedReason.denied_tenant_mismatch
    ≡ merge_denied DeniedReason.denied_owner_mismatch
        (merge_denied DeniedReason.denied_none DeniedReason.denied_tenant_mismatch)
merge_denied_assoc_example =
    merge_denied_assoc DeniedReason.denied_owner_mismatch DeniedReason.denied_none
      DeniedReason.denied_tenant_mismatch
