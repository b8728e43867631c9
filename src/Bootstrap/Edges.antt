-- ===== src/Bootstrap/Edges.antt =====
-- `BootstrapTenant` and the graph of grants.
use amsonia_core.Base.{List, ◌≡◌, subst, All-every, arith}
use amsonia_core.Types.Records.{RolePermissionGrant, HostProvenance}
use amsonia_core.Store.Steps.{Keeps, Keeps-bind, Keeps-lift, Keeps-pure}
use amsonia_core.Memory.{memory_tx}
use amsonia_core.Memory.Writer
use amsonia_core.Manager.Frame.{each_step-Keeps}
use amsonia_core.Manager.Delegations.{Edges, OnEdges, edges-Frame}
use amsonia_core.Bootstrap.Inputs
use amsonia_core.Bootstrap.Inputs.{BootstrapInput}
use amsonia_core.Bootstrap.Tenant.{add_grant, bootstrap_body}

-- The bootstrap writes no edge.
mark_bootstrapped-Keeps :
    (P : Edges → Type 0) (provenance : HostProvenance)
    → Keeps (OnEdges P) (Writer.mark_bootstrapped provenance)
unfolding Writer.mark_bootstrapped
mark_bootstrapped-Keeps P provenance s a s' e h =
    let same : s.grant_edges ≡ s'.grant_edges = ground arith in subst P same h

is_bootstrapped-Keeps : (P : Edges → Type 0) → Keeps (OnEdges P) memory_tx.is_bootstrapped
is_bootstrapped-Keeps P s a s' e h =
    let same : s.grant_edges ≡ s'.grant_edges = ground arith in subst P same h

pub bootstrap_body-Keeps :
    (P : Edges → Type 0) (t : Inputs.Readings) (input : BootstrapInput)
    (provenance : HostProvenance) (grants : List RolePermissionGrant)
    → Keeps (OnEdges P) (bootstrap_body memory_tx t input provenance grants)
unfolding bootstrap_body
bootstrap_body-Keeps P t input provenance grants =
    Keeps-bind (OnEdges P) _ _ (is_bootstrapped-Keeps P) λ already.
      Keeps-bind (OnEdges P) _ _ (Keeps-lift (OnEdges P) _) λ _.
        Keeps-bind (OnEdges P) _ _ ((edges-Frame P).growth.new_role _) λ _.
          Keeps-bind (OnEdges P) _ _
            (each_step-Keeps (OnEdges P) (add_grant memory_tx) grants (
              All-every _ grants λ g.
                Keeps-bind (OnEdges P) _ _ ((edges-Frame P).growth.new_grant g tt)
                  λ _. Keeps-pure (OnEdges P) tt))
            λ _. Keeps-bind (OnEdges P) _ _ ((edges-Frame P).binding _) λ _.
              Keeps-bind (OnEdges P) _ _ ((edges-Frame P).growth.version _) λ _.
                Keeps-bind (OnEdges P) _ _ ((edges-Frame P).growth.audit _)
                  λ _. mark_bootstrapped-Keeps P provenance
