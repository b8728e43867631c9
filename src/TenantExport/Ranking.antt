-- ===== src/TenantExport/Ranking.antt =====
-- The comparisons by which tenantexport/snapshot.go sorts.
use amsonia_core.Base.{ℕ, ◌%◌, ◌^◌, ◌≡◌, refl, List, [], ◌∷◌, Bool, true, false, arith}
use amsonia_core.Base.Canonical.{Ranks, TiesIn}
use amsonia_core.Text.{Text, text_key}
use amsonia_core.Text.Order.{
  text_ltb, text_ltb_irrefl, text_ltb_asymm, text_ltb_total, text_le_trans,
}
use amsonia_core.Types.Enums.{spelling}
use amsonia_core.Types.Records.{Role, RolePermissionGrant, RoleVersion, GrantEdge}
use amsonia_core.TenantExport.{
  text_then, texts_before, role_before, grant_before, version_before, edge_before, int64_before,
}

-- A comparison by a text first.
then-Ranks :
    {A : Type 0} (key : A → Text) (rest : A → A → Bool)
    → Ranks rest
    → Ranks (λ a b. text_then (key a) (key b) (rest a b))
then-Ranks key rest h = record {
  asymm = λ a b e. ground (arith, e, h.asymm a b, text_ltb_asymm (key a) (key b));
  apart = λ a b c e f. ground (
    arith,
    e,
    f,
    h.apart a b c,
    text_le_trans (key a) (key b) (key c),
    text_ltb_total (key a) (key b),
    text_ltb_total (key b) (key c),
    text_ltb_irrefl (key a),
    text_ltb_irrefl (key b),
    text_ltb_irrefl (key c),
  );
}

text-Ranks : {A : Type 0} (key : A → Text) → Ranks (λ a b. text_ltb (key a) (key b))
text-Ranks key = record {
  asymm = λ a b. text_ltb_asymm (key a) (key b);
  apart = λ a b c. text_le_trans (key a) (key b) (key c);
}

texts_before_asymm : (xs ys : List Text) → texts_before xs ys ≡ true → texts_before ys xs ≡ false
unfolding texts_before
texts_before_asymm [] [] e = cc
texts_before_asymm [] (y ∷ ys) e = refl
texts_before_asymm (x ∷ xs) [] e = cc
texts_before_asymm (x ∷ xs) (y ∷ ys) e =
    ground (arith, texts_before_asymm xs ys, text_ltb_asymm x y)

texts_before_apart :
    (xs ys zs : List Text)
    → texts_before xs ys ≡ false
    → texts_before ys zs ≡ false
    → texts_before xs zs ≡ false
unfolding texts_before
texts_before_apart xs [] [] e f = e
texts_before_apart [] [] (z ∷ zs) e f = cc
texts_before_apart (x ∷ xs) [] (z ∷ zs) e f = cc
texts_before_apart [] (y ∷ ys) zs e f = cc
texts_before_apart (x ∷ xs) (y ∷ ys) [] e f = refl
texts_before_apart (x ∷ xs) (y ∷ ys) (z ∷ zs) e f = ground (
  arith,
  texts_before_apart xs ys zs,
  text_le_trans x y z,
  text_ltb_total x y,
  text_ltb_total y z,
  text_ltb_irrefl x,
)

pub role_before-Ranks : Ranks role_before
unfolding role_before
role_before-Ranks = text-Ranks (λ r. r.role_id)

pub grant_before-Ranks : Ranks grant_before
unfolding grant_before
grant_before-Ranks =
    then-Ranks (λ g. g.role_id) _
      (then-Ranks (λ g. g.permission) _
        (then-Ranks (λ g. spelling g.scope) _
          (record {
            asymm = λ a b. texts_before_asymm a.workspace_roles b.workspace_roles;
            apart =
                λ a b c. texts_before_apart a.workspace_roles b.workspace_roles c.workspace_roles;
          })))

pub version_before-Ranks : Ranks version_before
unfolding version_before int64_before
version_before-Ranks =
    then-Ranks (λ v. v.role_id) (λ a b. int64_before a.version b.version)
      (record { asymm = λ a b e. ground (arith, e); apart = λ a b c e f. ground (arith, e, f) })

pub edge_before-Ranks : Ranks edge_before
unfolding edge_before
edge_before-Ranks =
    then-Ranks (λ x. x.grantor) _ (then-Ranks (λ x. x.grantee) _ (text-Ranks (λ x. x.role_id)))

-- Rows that a comparison does not tell apart have the same key.
texts_before_total :
    (xs ys : List Text) → texts_before xs ys ≡ false → texts_before ys xs ≡ false → xs ≡ ys
unfolding texts_before
texts_before_total [] [] e f = refl
texts_before_total [] (y ∷ ys) e f = cc
texts_before_total (x ∷ xs) [] e f = cc
texts_before_total (x ∷ xs) (y ∷ ys) e f =
    ground (arith, texts_before_total xs ys, text_ltb_total x y)

then_total :
    (a b : Text) (rest other : Bool)
    → text_then a b rest ≡ false
    → text_then b a other ≡ false
    → (a ≡ b) × (rest ≡ false) × (other ≡ false)
then_total a b rest other e f =
    let same : a ≡ b = ground (arith, e, f, text_ltb_total a b) in
    (same, ground (arith, e, same), ground (arith, f, same))

-- What no two rows of a tenant have in common: the primary key of each table.
abbrev pub role_key : Role → Text
role_key r = r.role_id

abbrev pub grant_key : RolePermissionGrant → Text × Text × Text × List Text
grant_key g = (g.role_id, g.permission, spelling g.scope, g.workspace_roles)

abbrev pub version_key : RoleVersion → Text × ℕ
version_key v = (v.role_id, v.version % 2 ^ 64)

abbrev pub edge_key : GrantEdge → Text × Text × Text
edge_key e = (e.grantor, e.grantee, e.role_id)

-- Values with the property that agree on the key are equal.
abbrev pub KeyedIn : {A K : Type 0} → (A → Type 0) → (A → K) → Type 0
KeyedIn {A} P key = (a b : A) → P a → P b → key a ≡ key b → a ≡ b

pub role-TiesIn : (P : Role → Type 0) → KeyedIn P role_key → TiesIn P role_before
unfolding role_before
role-TiesIn P keyed a b p q e f = keyed a b p q (text_ltb_total a.role_id b.role_id e f)

pub grant-TiesIn : (P : RolePermissionGrant → Type 0) → KeyedIn P grant_key → TiesIn P grant_before
unfolding grant_before
grant-TiesIn P keyed a b p q e f =
    let (role, e1, f1) = then_total a.role_id b.role_id _ _ e f in
    let (permission, e2, f2) = then_total a.permission b.permission _ _ e1 f1 in
    let (scope, e3, f3) = then_total (spelling a.scope) (spelling b.scope) _ _ e2 f2 in
    let roles = texts_before_total a.workspace_roles b.workspace_roles e3 f3 in
    keyed a b p q (λ i. (role i, permission i, scope i, roles i))

pub version-TiesIn : (P : RoleVersion → Type 0) → KeyedIn P version_key → TiesIn P version_before
unfolding version_before int64_before
version-TiesIn P keyed a b p q e f =
    let (role, e1, f1) = then_total a.role_id b.role_id _ _ e f in
    let version : a.version % 2 ^ 64 ≡ b.version % 2 ^ 64 = ground (arith, e1, f1) in
    keyed a b p q (λ i. (role i, version i))

pub edge-TiesIn : (P : GrantEdge → Type 0) → KeyedIn P edge_key → TiesIn P edge_before
unfolding edge_before
edge-TiesIn P keyed a b p q e f =
    let (grantor, e1, f1) = then_total a.grantor b.grantor _ _ e f in
    let (grantee, e2, f2) = then_total a.grantee b.grantee _ _ e1 f1 in
    keyed a b p q (λ i. (grantor i, grantee i, text_ltb_total a.role_id b.role_id e2 f2 i))
