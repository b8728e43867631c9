-- ===== src/Memory/Isolation.antt =====
-- `MutateTenant` of memory/memory.go, and what a call leaves of every tenant.
use amsonia_core.Base.{
  ◌≡◌, ◌≢◌, refl, sym, subst, ap, ◌∙◌, List, [], ◌∷◌, true, none, map, Bool-cases, Option-cases,
  inl, inr, arith,
}
use amsonia_core.Base.Maps.{Map, contains, insert, lookup-insert}
use amsonia_core.Text.{Text, text_key, text_dec}
use amsonia_core.Types.Errors.{Error, Result, ok, err, invalid_input, not_found, is_ok}
use amsonia_core.Types.Records.{RolePermissionGrant, RoleVersion}
use amsonia_core.Types.Ids.{validate_opaque_id}
use amsonia_core.Store.{Tx}
use amsonia_core.Memory.State.{
  TenantState, new_tenant_state, clone_map, clone_grant, clone_snapshot, clone_tenant_state,
}
use amsonia_core.Memory.Maintenance.{maintain_tenant}
use amsonia_core.Memory.{MemoryStore, Context, state_of, with_tenant, commit, enter, mutate_tenant}

clone_map_id : {K V : Type 0} (f : V → V) → ((v : V) → f v ≡ v) → (m : Map K V) → clone_map f m ≡ m
clone_map_id f h [] = refl
clone_map_id f h (e ∷ m) = cc (h e.1, clone_map_id f h m)

map-clone_grant : (grants : List RolePermissionGrant) → map clone_grant grants ≡ grants
map-clone_grant [] = refl
map-clone_grant (g ∷ grants) = cc (map-clone_grant grants)

clone_snapshot_id : (v : RoleVersion) → clone_snapshot v ≡ v
unfolding clone_snapshot
clone_snapshot_id v = λ i. record v { grants = map-clone_grant v.grants i }

-- A copy has the entries of its source.
clone_tenant_state_id : (s : TenantState) → clone_tenant_state s ≡ s
unfolding clone_tenant_state
clone_tenant_state_id s = λ i. record s {
  roles = clone_map_id (λ r. r) (λ r. refl) s.roles i;
  role_perms =
      clone_map_id (clone_map clone_grant) (clone_map_id clone_grant (λ g. refl)) s.role_perms i;
  subject_roles =
      clone_map_id (clone_map (λ g. g)) (clone_map_id (λ g. g) (λ g. refl)) s.subject_roles i;
  grant_edges = clone_map_id (λ g. g) (λ g. refl) s.grant_edges i;
  role_versions =
      clone_map_id (clone_map clone_snapshot) (clone_map_id clone_snapshot clone_snapshot_id)
        s.role_versions i;
  purge_ledger = clone_map_id (λ e. e) (λ e. refl) s.purge_ledger i;
}

pub state_of-insert :
    (a b : Text) (t : TenantState) (store : MemoryStore)
    → state_of b (insert a t store)
      ≡ (elim (text_key.dec a b) as (λ x. TenantState) [ yes e ↦ t | no h ↦ state_of b store ])
state_of-insert a b t store = ground (arith, lookup-insert a b t store)

pub state_of-insert_self :
    (a : Text) (t : TenantState) (store : MemoryStore) → state_of a (insert a t store) ≡ t
state_of-insert_self a t store = ground (arith, lookup-insert a a t store)

-- Making an entry for a tenant changes nothing that can be seen of it.
pub state_of-with_tenant :
    (a b : Text) (store : MemoryStore) → state_of b (with_tenant a store) ≡ state_of b store
unfolding with_tenant contains
state_of-with_tenant a b store = ground (arith, lookup-insert a b new_tenant_state store)

-- How a call on one tenant ended. A failure changes no tenant; a success gives the tenant the state
-- that the callback made of it, and changes no other tenant.
abbrev pub Effect :
    {A : Type 0} → Text → Tx TenantState A → MemoryStore → Result A × MemoryStore → Type 0
Effect tenant_id body store (err e, after) = (b : Text) → state_of b after ≡ state_of b store
Effect tenant_id body store (ok a, after) =
    (body (state_of tenant_id store) ≡ ok (a, state_of tenant_id after))
    × ((b : Text) → b ≢ tenant_id → state_of b after ≡ state_of b store)

module _ {A : Type 0} (ctx : Context) (tenant_id : Text) (body : Tx TenantState A)
    (store : MemoryStore) where
  Effect-other :
      (after : Result A × MemoryStore)
      → Effect tenant_id body store after
      → (b : Text) → b ≢ tenant_id
      → state_of b after.1 ≡ state_of b store
  Effect-other (err e, s') h b ne = h b
  Effect-other (ok a, s') h b ne = h.1 b ne

  Effect-failed :
      (after : Result A × MemoryStore) {e : Error}
      → after.0 ≡ err e
      → Effect tenant_id body store after
      → (b : Text) → state_of b after.1 ≡ state_of b store
  Effect-failed (err x, s') f h b = h b
  Effect-failed (ok a, s') f h b = cc

  Effect-idle :
      (after : Result A × MemoryStore)
      → Effect tenant_id body store after
      → ((s' : TenantState) (a : A)
          → body (state_of tenant_id store) ≡ ok (a, s')
          → s' ≡ state_of tenant_id store)
      → state_of tenant_id after.1 ≡ state_of tenant_id store
  Effect-idle (err e, s') h idle = h tenant_id
  Effect-idle (ok a, s') h idle = idle (state_of tenant_id s') a h.0

  commit-Effect :
      (r : Result (A × TenantState))
      → body (clone_tenant_state (state_of tenant_id store)) ≡ r
      → Effect tenant_id body store (commit ctx tenant_id r (with_tenant tenant_id store))
  unfolding commit
  commit-Effect (err e) h = λ b. state_of-with_tenant tenant_id b store
  commit-Effect (ok (a, pending)) h = elim (Option-cases ctx.finished) [
    | inr (x, cancelled) ↦ rw cancelled (λ b. state_of-with_tenant tenant_id b store)
    | inl open_ctx ↦ rw open_ctx (
      rw (← clone_tenant_state_id (state_of tenant_id store))
          (h ∙ ap (λ t. ok (a, t)) (sym (state_of-insert_self tenant_id pending _))),
      λ b ne. ground (
        arith,
        state_of-insert tenant_id b pending (with_tenant tenant_id store),
        state_of-with_tenant tenant_id b store,
      ),
    )
  ]

  -- Every path of `MutateTenant`: where it fails, no tenant's state has changed; where it succeeds,
  -- its tenant has the state that the callback made of the old one, and no other tenant changed.
  pub mutate_tenant-Effect : Effect tenant_id body store (mutate_tenant ctx tenant_id body store)
  unfolding mutate_tenant enter
  mutate_tenant-Effect = elim (Bool-cases (is_ok (validate_opaque_id tenant_id))) [
    | inr bad ↦ rw bad (λ b. refl)
    | inl good ↦ elim (Option-cases ctx.before) [
      | inr (x, e) ↦ rw (good, e) (λ b. refl)
      | inl e ↦ elim (Option-cases ctx.locked) [
        | inr (x, f) ↦ rw (good, e, f) (λ b. refl)
        | inl f ↦ elim (Bool-cases (state_of tenant_id store).purged) [
          | inl gone ↦ rw (good, e, f, gone) (λ b. state_of-with_tenant tenant_id b store)
          | inr live ↦ rw (good, e, f, live) (commit-Effect _ refl)
        ]
      ]
    ]
  ]

  -- A tenant with a purge tombstone keeps its state.
  mutate_tenant-fails :
      (state_of tenant_id store).purged ≡ true
      → (e : Error) × ((mutate_tenant ctx tenant_id body store).0 ≡ err e)
  unfolding mutate_tenant enter
  mutate_tenant-fails gone = elim (Bool-cases (is_ok (validate_opaque_id tenant_id))) [
    | inr bad ↦ (invalid_input, rw bad refl)
    | inl good ↦ elim (Option-cases ctx.before) [
      | inr (x, e) ↦ (x, rw (good, e) refl)
      | inl e ↦ elim (Option-cases ctx.locked) [
        | inr (x, f) ↦ (x, rw (good, e, f) refl)
        | inl f ↦ (not_found, rw (good, e, f, gone) refl)
      ]
    ]
  ]

  pub mutate_tenant-frozen :
      (b : Text)
      → (state_of b store).purged ≡ true
      → state_of b (mutate_tenant ctx tenant_id body store).1 ≡ state_of b store
  mutate_tenant-frozen b gone = elim (text_dec b tenant_id) [
    | no ne ↦ Effect-other (mutate_tenant ctx tenant_id body store) mutate_tenant-Effect b ne
    | yes same ↦
        let (e, failed) =
          mutate_tenant-fails (subst (λ x. (state_of x store).purged ≡ true) same gone) in
        Effect-failed (mutate_tenant ctx tenant_id body store) failed mutate_tenant-Effect b
  ]

  -- Every path of `MaintainTenant`, which lets a purged tenant in.
  pub maintain_tenant-Effect :
      Effect tenant_id body store (maintain_tenant ctx tenant_id body store)
  unfolding maintain_tenant enter
  maintain_tenant-Effect = elim (Bool-cases (is_ok (validate_opaque_id tenant_id))) [
    | inr bad ↦ rw bad (λ b. refl)
    | inl good ↦ elim (Option-cases ctx.before) [
      | inr (x, e) ↦ rw (good, e) (λ b. refl)
      | inl e ↦ elim (Option-cases ctx.locked) [
        | inr (x, f) ↦ rw (good, e, f) (λ b. refl)
        | inl f ↦ rw (good, e, f) (commit-Effect _ refl)
      ]
    ]
  ]

  -- A callback that leaves a purged tenant as it is.
  pub maintain_tenant-frozen :
      ((s s' : TenantState) (a : A) → s.purged ≡ true → body s ≡ ok (a, s') → s' ≡ s)
      → (b : Text) → (state_of b store).purged ≡ true
      → state_of b (maintain_tenant ctx tenant_id body store).1 ≡ state_of b store
  maintain_tenant-frozen idle b gone = elim (text_dec b tenant_id) [
    | no ne ↦ Effect-other (maintain_tenant ctx tenant_id body store) maintain_tenant-Effect b ne
    | yes same ↦
        subst (λ x. state_of x (maintain_tenant ctx tenant_id body store).1 ≡ state_of x store)
          (sym same)
          (Effect-idle (maintain_tenant ctx tenant_id body store) maintain_tenant-Effect (λ s' a e.
            idle (state_of tenant_id store) s' a
              (subst (λ x. (state_of x store).purged ≡ true) same gone) e))
  ]

  -- In an open context, on a valid tenant, the maintenance commits what the callback makes of the state.
  pub maintain_tenant-commits :
      (a : A) (next : TenantState)
      → is_ok (validate_opaque_id tenant_id) ≡ true
      → ctx.before ≡ none
      → ctx.locked ≡ none
      → ctx.finished ≡ none
      → body (state_of tenant_id store) ≡ ok (a, next)
      → maintain_tenant ctx tenant_id body store
        ≡ (ok a, insert tenant_id next (with_tenant tenant_id store))
  unfolding maintain_tenant enter commit
  maintain_tenant-commits a next good e f open_ctx run =
      let copied = ap body (clone_tenant_state_id (state_of tenant_id store)) ∙ run in
      rw (good, e, f, copied, open_ctx) refl
