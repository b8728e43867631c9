-- ===== src/Manager/Authorized.antt =====
-- All operations of manager.go, and the authority that each needs.
use amsonia_core.Base.{◌≡◌, nat_key, arith}
use amsonia_core.Text.{text_key}
use amsonia_core.Types.Errors.{Result, ok, err}
use amsonia_core.Types.Records.{Principal, MutationMetadata}
use amsonia_core.Memory.{MemoryStore, Context, memory_store, state_of}
use amsonia_core.Manager.{Manager, Readings, MutationResult, Outcome}
use amsonia_core.Manager.Roles.{
  create_role_body, create_role, create_role_with_permissions, update_role, delete_role,
}
use amsonia_core.Manager.Grants.{grant_permission, revoke_permission}
use amsonia_core.Manager.Assignments.{assign_role, unassign_role}
use amsonia_core.Manager.Run.{Operation, run, second}
use amsonia_core.Manager.Perform.{perform-ok, checked-ok}
use amsonia_core.Manager.Warrants.{
  Warrant, require_grant-first, creates_with-Covers, update_role_body-AtVersion,
  delete_role_body-AtVersion, grant_permission_body-MayPass, revoke_permission_body-MayPass,
  assign_role_body-BindingWarrant, unassign_role_body-BindingWarrant,
}

second-ok :
    {A B T : Type 0} (o : Outcome (A × B) T) {b : B}
    → (second o).result ≡ ok b
    → (a : A) × (o.result ≡ ok (a, b))
second-ok o {b} e = split o.result e
  where
    split :
        {A B : Type 0} {b : B} (r : Result (A × B))
        → elim r as (λ x. Result B) [ ok (a, b) ↦ ok b | err e ↦ err e ] ≡ ok b
        → (a : A) × (r ≡ ok (a, b))
    split (ok (a, c)) e = (a, ground arith)
    split (err x) e = cc

-- An operation succeeds only with its warrant, whatever the context. A creation and a change of a
-- role need the permission to manage roles at tenant scope; initial permissions, a granted and a
-- revoked grant must be covered by the actor's own grants; an assignment and its removal need the
-- permission to assign roles, and coverage of every grant of the role; and the role of every
-- operation but a creation is there, live and at the expected version.
pub run-Warrant :
    (ctx : Context) (m : Manager) (t : Readings) (actor : Principal) (meta : MutationMetadata)
    (op : Operation) (s : MemoryStore) {a : MutationResult}
    → (run (memory_store ctx) m t actor meta op s).result ≡ ok a
    → Warrant m actor (state_of actor.tenant_id s) op
unfolding run create_role create_role_with_permissions update_role delete_role grant_permission
    revoke_permission assign_role unassign_role create_role_body
run-Warrant ctx m t actor meta (Operation.creates input) s e =
    let (role, e1) = second-ok (create_role (memory_store ctx) m t actor meta input s) e in
    let (u, valid, e2) = checked-ok _ s _ e1 in
    let body = perform-ok ctx actor.tenant_id _ _ s e2 in
    (require_grant-first m actor (state_of actor.tenant_id s) _ _ _ _ _ body).0
run-Warrant ctx m t actor meta (Operation.creates_with input) s e =
    let (role, e1) =
      second-ok (create_role_with_permissions (memory_store ctx) m t actor meta input s) e in
    let (u, valid, e2) = checked-ok _ s _ e1 in
    let (permissions, found, e3) = checked-ok _ s _ e2 in
    let body = perform-ok ctx actor.tenant_id _ _ s e3 in
    let (controls, covered) =
      creates_with-Covers m actor (state_of actor.tenant_id s) t meta _ permissions body in
    (controls, (permissions, found, covered))
run-Warrant ctx m t actor meta (Operation.updates input) s e =
    let (role, e1) = second-ok (update_role (memory_store ctx) m t actor meta input s) e in
    let (u, valid, e2) = checked-ok _ s _ e1 in
    let body = perform-ok ctx actor.tenant_id _ _ s e2 in
    update_role_body-AtVersion m actor (state_of actor.tenant_id s) t meta input body
run-Warrant ctx m t actor meta (Operation.deletes input) s e =
    let (u, valid, e2) = checked-ok _ s _ e in
    let (v, found, e3) = checked-ok _ s _ e2 in
    let body = perform-ok ctx actor.tenant_id _ _ s e3 in
    delete_role_body-AtVersion m actor (state_of actor.tenant_id s) t meta input body
run-Warrant ctx m t actor meta (Operation.grants input) s e =
    let (u, valid, e2) = checked-ok _ s _ e in
    let (grant, found, e3) = checked-ok _ s _ e2 in
    let body = perform-ok ctx actor.tenant_id _ _ s e3 in
    let (covers, current) =
      grant_permission_body-MayPass m actor (state_of actor.tenant_id s) t meta grant _ body in
    (grant, found, covers, current)
run-Warrant ctx m t actor meta (Operation.revokes input) s e =
    let (u, valid, e2) = checked-ok _ s _ e in
    let (grant, found, e3) = checked-ok _ s _ e2 in
    let body = perform-ok ctx actor.tenant_id _ _ s e3 in
    let (covers, current) =
      revoke_permission_body-MayPass m actor (state_of actor.tenant_id s) t meta grant _ body in
    (grant, found, covers, current)
run-Warrant ctx m t actor meta (Operation.assigns input) s e =
    let (u, valid, e2) = checked-ok _ s _ e in
    let body = perform-ok ctx actor.tenant_id _ _ s e2 in
    assign_role_body-BindingWarrant m actor (state_of actor.tenant_id s) t meta input body
run-Warrant ctx m t actor meta (Operation.unassigns input) s e =
    let (u, valid, e2) = checked-ok _ s _ e in
    let body = perform-ok ctx actor.tenant_id _ _ s e2 in
    unassign_role_body-BindingWarrant m actor (state_of actor.tenant_id s) t meta input body
