-- ===== src/Memory/Cells/Owned.antt =====
-- What the cells of memory/memory.go show of a tenant, and which addresses are taken.
use amsonia_core.Base.{
  ℕ, ◌<◌, ◌≡◌, ◌≢◌, refl, sym, ap, ◌∙◌, ◌==◌, nat_key, Option, none, some, if◌then◌else◌, arith,
}
use amsonia_core.Base.Maps.{lookup, lookup-insert, lookup-insert_self}
use amsonia_core.Text.{Text, text_key}
use amsonia_core.Memory.State.{TenantState, new_tenant_state}
use amsonia_core.Memory.Cells.Reads.{
  AllOwn, read-write, read-allocate, read-allocate_self, write-AllOwn, allocate-AllOwn,
}
use amsonia_core.Memory.Cells.{Cells, read, write, allocate, point, pointer_at, pointer_of}

-- The state at a pointer, new if there is none.
unfoldable pub at_pointer : Cells → Option ℕ → TenantState
at_pointer h none = new_tenant_state
at_pointer h (some p) = read p h

-- The state of a tenant.
abbrev pub view : Text → Cells → TenantState
view tenant_id h = at_pointer h (lookup tenant_id h.tenants)

-- Every struct has maps of its own, every pointer of the map is below the first free address, and no
-- two tenants share one.
pub record IsOwned (h : Cells) : Type 0 where
  pub own : AllOwn h
  pub taken : (tenant_id : Text) (p : ℕ) → lookup tenant_id h.tenants ≡ some p → p < h.next
  pub apart :
      (a b : Text) (p : ℕ) → lookup a h.tenants ≡ some p → lookup b h.tenants ≡ some p → a ≡ b

-- No tenant points to the address.
abbrev pub Unused : ℕ → Cells → Type 0
Unused p h = (tenant_id : Text) → lookup tenant_id h.tenants ≢ some p

pub IsOwned-Unused : (h : Cells) → IsOwned h → Unused h.next h
IsOwned-Unused h owned tenant_id e = omega (arith, owned.taken tenant_id h.next e)

-- A write through a pointer that no tenant has is not seen.
pub view-write :
    (p : ℕ) (t : TenantState) (h : Cells)
    → p < h.next
    → Unused p h
    → IsOwned h
    → (b : Text) → view b (write p t h) ≡ view b h
unfolding at_pointer write
view-write p t h below unused owned b = at_write (lookup b h.tenants) refl
  where
    at_write : (o : Option ℕ) → lookup b h.tenants ≡ o → at_pointer (write p t h) o ≡ at_pointer h o
    at_write none e = refl
    at_write (some q) e =
        read-write p q t h (owned.own p below) (owned.own q (owned.taken b q e))
          (λ same. unused b (e ∙ ap some (sym same)))

pub view-allocate :
    (t : TenantState) (h : Cells) → IsOwned h → (b : Text) → view b (allocate t h) ≡ view b h
unfolding at_pointer allocate
view-allocate t h owned b = at_allocate (lookup b h.tenants) refl
  where
    at_allocate :
        (o : Option ℕ) → lookup b h.tenants ≡ o → at_pointer (allocate t h) o ≡ at_pointer h o
    at_allocate none e = refl
    at_allocate (some q) e = read-allocate q t h (owned.taken b q e) owned.own

pub write-IsOwned :
    (p : ℕ) (t : TenantState) (h : Cells) → p < h.next → IsOwned h → IsOwned (write p t h)
unfolding write
write-IsOwned p t h below owned = record {
  own = write-AllOwn p t h below owned.own;
  taken = owned.taken;
  apart = owned.apart;
}

pub allocate-IsOwned : (t : TenantState) (h : Cells) → IsOwned h → IsOwned (allocate t h)
unfolding allocate
allocate-IsOwned t h owned = record {
  own = allocate-AllOwn t h owned.own;
  taken = λ b p e. omega (arith, owned.taken b p e);
  apart = owned.apart;
}

-- A tenant that is pointed to an address of its own.
pub point-IsOwned :
    (a : Text) (p : ℕ) (h : Cells) → p < h.next → Unused p h → IsOwned h → IsOwned (point a p h)
unfolding point
point-IsOwned a p h below unused owned = record {
  own = owned.own;
  taken = λ b q e. ground (arith, e, below, lookup-insert a b p h.tenants, owned.taken b q);
  apart = λ b c q e f. ground (
    arith,
    e,
    f,
    lookup-insert a b p h.tenants,
    lookup-insert a c p h.tenants,
    unused b,
    unused c,
    owned.apart b c q,
  );
}

pub view-point :
    (a : Text) (p : ℕ) (h : Cells) (b : Text)
    → view b (point a p h) ≡ (if a == b then read p h else view b h)
unfolding point at_pointer
view-point a p h b = ground (arith, lookup-insert a b p h.tenants)

-- The pointer that `s.tenant` answers with is the tenant's, and nothing that can be seen has changed.
pub record IsFound (a : Text) (h : Cells) (t : ℕ) (found : Cells) : Type 0 where
  pub owned : IsOwned found
  pub pointer : lookup a found.tenants ≡ some t
  pub same : (b : Text) → view b found ≡ view b h

pub view-pointer :
    (a : Text) (p : ℕ) (h : Cells) → lookup a h.tenants ≡ some p → view a h ≡ read p h
unfolding at_pointer
view-pointer a p h e = rw e refl

view-none :
    (a b : Text) (h : Cells) → lookup a h.tenants ≡ none → a ≡ b → view b h ≡ new_tenant_state
unfolding at_pointer
view-none a b h e same = rw (← same, e) refl

pointer_at-IsFound :
    (a : Text) (o : Option ℕ) (h : Cells)
    → IsOwned h
    → lookup a h.tenants ≡ o
    → IsFound a h (pointer_at a o h).0 (pointer_at a o h).1
unfolding pointer_at point allocate
pointer_at-IsFound a (some t) h owned e = record { owned = owned; pointer = e; same = λ b. refl }
pointer_at-IsFound a none h owned e =
    let made = allocate new_tenant_state h in
    record {
      owned =
          point-IsOwned a h.next made (unfold allocate in omega arith)
            (unfold allocate in IsOwned-Unused h owned) (allocate-IsOwned new_tenant_state h owned);
      pointer = lookup-insert_self a h.next h.tenants;
      same = λ b. ground (
        arith,
        view-point a h.next made b,
        view-allocate new_tenant_state h owned b,
        read-allocate_self new_tenant_state h,
        view-none a b h e,
      );
    }

pub pointer_of-IsFound :
    (a : Text) (h : Cells) → IsOwned h → IsFound a h (pointer_of a h).0 (pointer_of a h).1
unfolding pointer_of
pointer_of-IsFound a h owned = pointer_at-IsFound a (lookup a h.tenants) h owned refl
