-- ===== src/Manager/Delegations.antt =====
-- `AssignRole` and `UnassignRole` of manager.go, and the graph of grants in memory/memory.go.
use amsonia_core.Base.{ℕ, ◌≡◌, subst, false, arith}
use amsonia_core.Base.Maps.{Map, keys, insert, erase}
use amsonia_core.Text.{Text, text_dec, text_key}
use amsonia_core.Types.Records.{Principal, MutationMetadata, GrantEdge, SubjectRoleGrant}
use amsonia_core.Store.{pure, lift, ◌>>=◌}
use amsonia_core.Store.Steps.{
  Yields-bind, Keeps, Keeps-pure, Keeps-bind, Keeps-if, Takes, Takes-bind, Takes-if,
}
use amsonia_core.Memory.{memory_tx}
use amsonia_core.Memory.State.{TenantState, EdgeKey, edge_key_key}
use amsonia_core.Memory.Reader.{
  get_role, list_role_permission_grants, has_grant_path, has_administrator,
}
use amsonia_core.Memory.Writer
use amsonia_core.Memory.GrantPath.Correctness.{Chain, has_path_decides}
use amsonia_core.Memory.GrantPath.Acyclic.{
  IsAcyclic, IsAcyclic-fewer, IsAcyclic-more, EdgeIn-insert, EdgeIn-erase,
}
use amsonia_core.Manager.{Manager, Readings, Target}
use amsonia_core.Manager.Inputs.{AssignRoleInput}
use amsonia_core.Manager.Assignments.{
  bound, refuse_cycle, assign_role_body, delete_edge_of, unassign_role_body,
}
use amsonia_core.Manager.Frame.{
  Frame, AnyGrant, require_grant-Keeps, require_role_coverage-Keeps, current_role-Yields,
  guard_last_administrator-Keeps, no_change-Keeps,
}

abbrev pub Edges : Type 0
Edges = Map EdgeKey GrantEdge

module _ (P : Edges → Type 0) where
  abbrev pub OnEdges : TenantState → Type 0
  OnEdges s = P s.grant_edges

  -- Every method but the two that write edges leaves the edges as they are.
  pub edges-Frame : Frame OnEdges memory_tx
  unfolding get_role list_role_permission_grants has_grant_path has_administrator Writer.insert_role
      Writer.update_role Writer.tombstone_role Writer.insert_role_permission_grant Writer.put_grant
      Writer.delete_role_permission_grant Writer.insert_subject_role_grant
      Writer.delete_subject_role_grant Writer.insert_role_version Writer.insert_mutation_audit
  edges-Frame = record {
    growth = record {
      effective = λ x y s a s' e h. ground (arith, e, h);
      role = λ x s a s' e h. ground (arith, e, h);
      role_grants = λ x s a s' e h. ground (arith, e, h);
      role_subjects = λ x s a s' e h. ground (arith, e, h);
      path = λ x y s a s' e h. ground (arith, e, h);
      administrator = λ c s a s' e h. ground (arith, e, h);
      new_role = λ r s a s' e h. ground (arith, e, h);
      updated_role = λ r v live s a s' e h. ground (arith, e, h);
      new_grant = λ g good s a s' e h. ground (arith, e, h);
      version = λ v s a s' e h. ground (arith, e, h);
      audit = λ v s a s' e h. ground (arith, e, h);
    };
    tombstone = λ x v s a s' e h. ground (arith, e, h);
    old_grant = λ g s a s' e h. ground (arith, e, h);
    binding = λ g s a s' e h. ground (arith, e, h);
    unbinding = λ x y s a s' e h. ground (arith, e, h);
  }

-- No two subjects of the tenant reach each other.
abbrev pub IsCycleFree : TenantState → Type 0
IsCycleFree = OnEdges (λ edges. IsAcyclic (keys edges))

-- Besides, no chain leads from `b` back to `a`, unless they are one subject.
abbrev pub IsReadyFor : Text → Text → Edges → Type 0
IsReadyFor a b edges = IsAcyclic (keys edges) × (Chain (keys edges) b a → a ≡ b)

pub frame : Frame IsCycleFree memory_tx
frame = edges-Frame (λ edges. IsAcyclic (keys edges))

module _ (m : Manager) (t : Readings) where
  -- The cycle check passes only where a new edge closes no cycle.
  refuse_cycle-Takes :
      (actor : Principal) (subject_id : Text)
      → Takes IsCycleFree
          (OnEdges (IsReadyFor actor.subject_id subject_id))
          (refuse_cycle memory_tx m t actor subject_id)
  unfolding refuse_cycle pure ◌>>=◌ lift has_grant_path
  refuse_cycle-Takes actor subject_id s a s' e h = elim (text_dec actor.subject_id subject_id) [
    | yes p ↦
        let same : s ≡ s' = ground (arith, e) in
        subst (OnEdges (IsReadyFor actor.subject_id subject_id)) same (h, λ c. p)
    | no ne ↦
        let (found, ends, means) =
          has_path_decides (keys s.grant_edges) subject_id actor.subject_id in
        let missed : found ≡ false = ground (arith, e, ends) in
        let same : s ≡ s' = ground (arith, e, ends, missed) in
        let apart : Chain (keys s.grant_edges) subject_id actor.subject_id → ⊥ =
          λ c. let hit = means.1 (∣ c ∣₁) in cc in
        subst (OnEdges (IsReadyFor actor.subject_id subject_id)) same (h, λ c. absurd (apart c))
  ]

  insert_edge-Takes :
      (edge : GrantEdge)
      → Takes
          (OnEdges (IsReadyFor edge.grantor edge.grantee))
          IsCycleFree
          (Writer.insert_grant_edge edge)
  unfolding Writer.insert_grant_edge Writer.edge_key_of
  insert_edge-Takes edge s a s' e h =
      let k : EdgeKey = record {
        grantor = edge.grantor;
        grantee = edge.grantee;
        role_id = edge.role_id;
      } in
      let same : insert k edge s.grant_edges ≡ s'.grant_edges = ground (arith, e) in
      subst (λ edges. IsAcyclic (keys edges)) same
        (IsAcyclic-more (keys s.grant_edges) (keys (insert k edge s.grant_edges)) edge.grantor
          edge.grantee (EdgeIn-insert k edge s.grant_edges) h.1 h.0)

  delete_edge-Keeps : (edge : GrantEdge) → Keeps IsCycleFree (Writer.delete_grant_edge edge)
  unfolding Writer.delete_grant_edge Writer.edge_key_of
  delete_edge-Keeps edge s a s' e h =
      let k : EdgeKey = record {
        grantor = edge.grantor;
        grantee = edge.grantee;
        role_id = edge.role_id;
      } in
      let same : erase k s.grant_edges ≡ s'.grant_edges = ground (arith, e) in
      subst (λ edges. IsAcyclic (keys edges)) same
        (IsAcyclic-fewer (keys s.grant_edges) (keys (erase k s.grant_edges))
          (EdgeIn-erase k s.grant_edges) h)

  bound-Keeps :
      (actor : Principal) (meta : MutationMetadata) (target : Target) (version : ℕ)
      → Keeps IsCycleFree (bound memory_tx m t actor meta target version)
  unfolding bound
  bound-Keeps actor meta target version =
      Keeps-bind IsCycleFree _ _ (frame.growth.audit _) λ _. Keeps-pure IsCycleFree _

  pub assign_role_body-Keeps :
      (actor : Principal) (meta : MutationMetadata) (input : AssignRoleInput)
      → Keeps IsCycleFree (assign_role_body memory_tx m t actor meta input)
  unfolding assign_role_body
  assign_role_body-Keeps actor meta input =
      let Ready = OnEdges (IsReadyFor actor.subject_id input.subject_id) in
      Keeps-bind IsCycleFree _ _
        (require_grant-Keeps IsCycleFree AnyGrant memory_tx frame.growth m actor _ _ _ _)
        λ _.
          Yields-bind IsCycleFree (λ r. r.deleted ≡ false) _ _
            (current_role-Yields IsCycleFree AnyGrant memory_tx frame.growth m _ _)
            λ role live.
              Keeps-bind IsCycleFree _ _
                (require_role_coverage-Keeps IsCycleFree AnyGrant memory_tx frame.growth m actor
                  role.role_id)
                λ _.
                  Takes-bind IsCycleFree Ready IsCycleFree _ _
                    (refuse_cycle-Takes actor input.subject_id)
                    λ _.
                      Takes-bind Ready Ready IsCycleFree _ _
                        ((edges-Frame (IsReadyFor actor.subject_id input.subject_id)).binding _)
                        λ changed.
                          Takes-if Ready IsCycleFree changed _ _
                            (Takes-bind Ready IsCycleFree IsCycleFree _ _ (insert_edge-Takes _)
                              λ _. bound-Keeps actor meta _ role.version)
                            λ s a s' e h.
                              no_change-Keeps IsCycleFree AnyGrant memory_tx frame.growth m t actor
                                meta _ role.version s a s' e h.0

  delete_edge_of-Keeps :
      (actor : Principal) (input : AssignRoleInput) (removed : SubjectRoleGrant)
      → Keeps IsCycleFree (delete_edge_of memory_tx m t actor input removed)
  unfolding delete_edge_of
  delete_edge_of-Keeps actor input removed =
      Keeps-if IsCycleFree _ _ _ (delete_edge-Keeps _) (Keeps-pure IsCycleFree tt)

  pub unassign_role_body-Keeps :
      (actor : Principal) (meta : MutationMetadata) (input : AssignRoleInput)
      → Keeps IsCycleFree (unassign_role_body memory_tx m t actor meta input)
  unfolding unassign_role_body
  unassign_role_body-Keeps actor meta input =
      Keeps-bind IsCycleFree _ _
        (require_grant-Keeps IsCycleFree AnyGrant memory_tx frame.growth m actor _ _ _ _)
        λ _.
          Yields-bind IsCycleFree (λ r. r.deleted ≡ false) _ _
            (current_role-Yields IsCycleFree AnyGrant memory_tx frame.growth m _ _)
            λ role live.
              Keeps-bind IsCycleFree _ _
                (require_role_coverage-Keeps IsCycleFree AnyGrant memory_tx frame.growth m actor
                  role.role_id)
                λ _. Keeps-bind IsCycleFree _ _ (frame.unbinding _ _) λ removal.
                  Keeps-if IsCycleFree removal.1 _ _
                    (Keeps-bind IsCycleFree _ _
                      (guard_last_administrator-Keeps IsCycleFree AnyGrant memory_tx frame.growth m)
                      λ _.
                        Keeps-bind IsCycleFree _ _ (delete_edge_of-Keeps actor input removal.0)
                          λ _. bound-Keeps actor meta _ role.version)
                    (no_change-Keeps IsCycleFree AnyGrant memory_tx frame.growth m t actor meta _
                      role.version)
