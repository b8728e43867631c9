-- ===== src/Memory/Cells/Reads.antt =====
-- What is read of the structs and the maps of memory/memory.go after a write.
use amsonia_core.Base.{
  ℕ, ◌<◌, ◌≡◌, ◌≢◌, refl, sym, ap, subst, ℕ_discrete, ◌∙◌, ==_refl, nat_key, arith,
}
use amsonia_core.Memory.State.{TenantState}
use amsonia_core.Memory.Cells.{
  Struct, Maps, Cells, put, load, read, put_maps, with_values, write, fresh, allocate,
}

put_self : {A : Type 0} (p : ℕ) (v : A) (f : ℕ → A) → put p v f p ≡ v
unfolding put
put_self p v f = ground (arith, ==_refl p)

put_ne : {A : Type 0} (p q : ℕ) (v : A) (f : ℕ → A) → p ≢ q → put p v f q ≡ f q
unfolding put
put_ne p q v f h = ground (arith, h)

-- Two structs share no map.
pub record Apart (s u : Struct) : Type 0 where
  pub roles : s.roles ≢ u.roles
  pub role_perms : s.role_perms ≢ u.role_perms
  pub subject_roles : s.subject_roles ≢ u.subject_roles
  pub grant_edges : s.grant_edges ≢ u.grant_edges
  pub role_versions : s.role_versions ≢ u.role_versions
  pub purge_ledger : s.purge_ledger ≢ u.purge_ledger

load-put_maps :
    (s u : Struct) (t : TenantState) (m : Maps) → Apart s u → load u (put_maps s t m) ≡ load u m
unfolding load put_maps
load-put_maps s u t m apart = λ i. record {
  roles = put_ne s.roles u.roles t.roles m.roles apart.roles i;
  role_perms = put_ne s.role_perms u.role_perms t.role_perms m.role_perms apart.role_perms i;
  subject_roles =
      put_ne s.subject_roles u.subject_roles t.subject_roles m.subject_roles apart.subject_roles i;
  grant_edges = put_ne s.grant_edges u.grant_edges t.grant_edges m.grant_edges apart.grant_edges i;
  role_versions =
      put_ne s.role_versions u.role_versions t.role_versions m.role_versions apart.role_versions i;
  audit = u.audit;
  bootstrapped = u.bootstrapped;
  bootstrap_provenance = u.bootstrap_provenance;
  purged = u.purged;
  purge_ledger =
      put_ne s.purge_ledger u.purge_ledger t.purge_ledger m.purge_ledger apart.purge_ledger i;
}

load-put_maps_self :
    (s : Struct) (t : TenantState) (m : Maps) → load (with_values t s) (put_maps s t m) ≡ t
unfolding load put_maps with_values
load-put_maps_self s t m = λ i. record {
  roles = put_self s.roles t.roles m.roles i;
  role_perms = put_self s.role_perms t.role_perms m.role_perms i;
  subject_roles = put_self s.subject_roles t.subject_roles m.subject_roles i;
  grant_edges = put_self s.grant_edges t.grant_edges m.grant_edges i;
  role_versions = put_self s.role_versions t.role_versions m.role_versions i;
  audit = t.audit;
  bootstrapped = t.bootstrapped;
  bootstrap_provenance = t.bootstrap_provenance;
  purged = t.purged;
  purge_ledger = put_self s.purge_ledger t.purge_ledger m.purge_ledger i;
}

-- A struct whose maps were made with it: each has its address.
pub record Own (p : ℕ) (s : Struct) : Type 0 where
  pub roles : s.roles ≡ p
  pub role_perms : s.role_perms ≡ p
  pub subject_roles : s.subject_roles ≡ p
  pub grant_edges : s.grant_edges ≡ p
  pub role_versions : s.role_versions ≡ p
  pub purge_ledger : s.purge_ledger ≡ p

pub Own-Apart : (p q : ℕ) (s u : Struct) → Own p s → Own q u → p ≢ q → Apart s u
Own-Apart p q s u a b ne = record {
  roles = λ e. ne (sym a.roles ∙ e ∙ b.roles);
  role_perms = λ e. ne (sym a.role_perms ∙ e ∙ b.role_perms);
  subject_roles = λ e. ne (sym a.subject_roles ∙ e ∙ b.subject_roles);
  grant_edges = λ e. ne (sym a.grant_edges ∙ e ∙ b.grant_edges);
  role_versions = λ e. ne (sym a.role_versions ∙ e ∙ b.role_versions);
  purge_ledger = λ e. ne (sym a.purge_ledger ∙ e ∙ b.purge_ledger);
}

-- Each struct that was made has maps of its own.
abbrev pub AllOwn : Cells → Type 0
AllOwn h = (p : ℕ) → p < h.next → Own p (h.struct p)

pub read-write :
    (p q : ℕ) (t : TenantState) (h : Cells)
    → Own p (h.struct p)
    → Own q (h.struct q)
    → p ≢ q
    → read q (write p t h) ≡ read q h
unfolding write
read-write p q t h a b ne =
    ap (λ s. load s (put_maps (h.struct p) t h.maps))
      (put_ne p q (with_values t (h.struct p)) h.struct ne)
    ∙ load-put_maps (h.struct p) (h.struct q) t h.maps
        (Own-Apart p q (h.struct p) (h.struct q) a b ne)

pub read-write_self : (p : ℕ) (t : TenantState) (h : Cells) → read p (write p t h) ≡ t
unfolding write
read-write_self p t h =
    ap (λ s. load s (put_maps (h.struct p) t h.maps))
      (put_self p (with_values t (h.struct p)) h.struct)
    ∙ load-put_maps_self (h.struct p) t h.maps

fresh-Own : (p : ℕ) (t : TenantState) → Own p (fresh p t)
unfolding fresh
fresh-Own p t = record {
  roles = refl;
  role_perms = refl;
  subject_roles = refl;
  grant_edges = refl;
  role_versions = refl;
  purge_ledger = refl;
}

with_values-Own : (p : ℕ) (t : TenantState) (s : Struct) → Own p s → Own p (with_values t s)
unfolding with_values
with_values-Own p t s h = record {
  roles = h.roles;
  role_perms = h.role_perms;
  subject_roles = h.subject_roles;
  grant_edges = h.grant_edges;
  role_versions = h.role_versions;
  purge_ledger = h.purge_ledger;
}

pub read-allocate :
    (q : ℕ) (t : TenantState) (h : Cells) → q < h.next → AllOwn h → read q (allocate t h) ≡ read q h
unfolding allocate
read-allocate q t h below own =
    let made = fresh h.next t in
    let ne : h.next ≢ q = λ e. omega (arith, e, below) in
    ap (λ s. load s (put_maps made t h.maps)) (put_ne h.next q made h.struct ne)
    ∙ load-put_maps made (h.struct q) t h.maps
        (Own-Apart h.next q made (h.struct q) (fresh-Own h.next t) (own q below) ne)

pub read-allocate_self : (t : TenantState) (h : Cells) → read h.next (allocate t h) ≡ t
unfolding allocate
read-allocate_self t h =
    ap (λ s. load s (put_maps (fresh h.next t) t h.maps))
      (put_self h.next (fresh h.next t) h.struct)
    ∙ unfold fresh with_values in load-put_maps_self (fresh h.next t) t h.maps

put-Own :
    (p q : ℕ) (s : Struct) (f : ℕ → Struct) → Own p s → (p ≢ q → Own q (f q)) → Own q (put p s f q)
put-Own p q s f a b = elim (ℕ_discrete p q) [
  | yes e ↦ subst (λ r. Own r (put p s f r)) e (subst (Own p) (sym (put_self p s f)) a)
  | no ne ↦ subst (Own q) (sym (put_ne p q s f ne)) (b ne)
]

pub write-AllOwn :
    (p : ℕ) (t : TenantState) (h : Cells) → p < h.next → AllOwn h → AllOwn (write p t h)
unfolding write
write-AllOwn p t h taken own q below =
    put-Own p q (with_values t (h.struct p)) h.struct
      (with_values-Own p t (h.struct p) (own p taken)) (λ ne. own q below)

pub allocate-AllOwn : (t : TenantState) (h : Cells) → AllOwn h → AllOwn (allocate t h)
unfolding allocate
allocate-AllOwn t h own q below =
    put-Own h.next q (fresh h.next t) h.struct (fresh-Own h.next t)
      (λ ne. own q (omega (arith, ne, below)))
