-- ===== src/Lib.antt =====
-- The delegated authorization kernel of amsonia-core, with its in-memory store and its
-- administration manager, the hashing of passwords, and the path rules of its synchronisation tool.
--
-- The program's parts. A catalog (catalog.go) fixes the permission keys. The authorizer
-- (authorizer.go) answers one request: it validates it, reads the subject's grants from a policy
-- reader and, for grants at workspace scope, the subject's membership from a membership reader, and
-- applies the scope contract (policy.go). The manager (manager.go) changes roles, grants and
-- bindings: it validates its input, then runs one transaction of a store (store.go), in which it
-- checks what the actor may delegate and writes. The in-memory store (memory/memory.go) keeps a state
-- per tenant and commits a transaction's copy of it when the callback succeeds. The bootstrapper
-- (bootstrap.go) makes the first administrator of a tenant in one such transaction; the maintenance
-- (maintenance.go) exports a tenant in a canonical order (internal/tenantexport/snapshot.go) and
-- purges it between two events for the audit sink. Beside the kernel stand the hashes of passwords
-- (internal/security/password.go) and the tool that copies the files of a release by a manifest
-- (internal/coresync/sync.go); neither calls the kernel.
--
-- Files. Base: Boolean tests, lists, association lists for Go maps, insertion sort. Text: Go strings
-- as lists of bytes, UTF-8 decoding, TrimSpace, Split, bytewise order, EqualFold. Types: types.go and
-- the records of store.go (Errors, Enums, Records, Ids). Catalog: NewCatalog, Lookup, Keys, sortKeys;
-- Catalog/Keys: ParsePermissionKey, Validate, validateSegment, validateWorkspaceRole. Policy:
-- allowAccess, allowDelegation, workspaceRoleMatch, coversWorkspaceRoles; Policy/Grants:
-- EffectiveGrant.Validate. Authorizer: Check, evaluate, load, mergeDenied, reasonOr;
-- Authorizer/Request: validateRequest, validateResourceContext. Authorizer/Verdict has the contract
-- that the comment of Check documents, as a definition of its own. Store: TenantTx and MutateTenant,
-- as records over the type of the tenant's state and of the whole store. AdminPolicy:
-- internal/adminpolicy/coverage.go. Memory: the transactions of memory/memory.go; Memory/State: the
-- maps of a tenant and their copies; Memory/Reader and Memory/Writer: the methods of tenantReader and
-- tenantTx; Memory/GrantPath: HasGrantPath; Memory/Maintenance: PurgeTenant and MaintainTenant;
-- Memory/Cells: MutateTenant and MaintainTenant once more, over pointers to tenantState and references
-- to its maps, with proofs in Memory/Cells/Reads, Owned, Refined and Rollback.
-- Manager: the audit and denial reports; Manager/Inputs: the validation before a transaction;
-- Manager/Guards: requireGrant, requireRoleCoverage, guardLastAdministrator, bumpRoleVersion,
-- sortedGrants; Manager/Roles, Manager/Grants and Manager/Assignments: the operations;
-- Manager/Run: a call of any of them on the in-memory store. The proofs about the manager stand in Manager/Frame, Perform, Delegations,
-- CycleFree, Authority, Warrants, Authorized, LastAdministrator, ValidInputs, Sound and Administered,
-- over the steps of Store/Steps; those about HasAdministrator in Memory/Administrator.
-- Bootstrap/Inputs: what BootstrapTenant checks and collects; Bootstrap/Tenant: its transaction;
-- Bootstrap/Checked, Owner, Edges and Provisioned: proofs. Maintenance/Purge: PurgeTenant and
-- ExportTenant; Maintenance/Audited and Retry: proofs. TenantExport: Marshal before the JSON library;
-- TenantExport/Ranking and Order: proofs. System: calls of all these in any order on one in-memory
-- store; System/Stores, Frozen, Invariants, Administered and CycleFree: proofs.
-- Security/Password: internal/security/password.go, Hash, Verify and parseArgon2Parameters, on
-- Security/Decimal (%d and parseDecimalUint) and Security/Base64 (base64.RawStdEncoding);
-- Security/Password/Parameters, RoundTrip and Verified: proofs. CoreSync/Paths and CoreSync/Manifest:
-- internal/coresync/sync.go, isSafeRelativePath and ValidateManifest; CoreSync/Paths/Elements, Safe
-- and CoreSync/Manifest/Valid: proofs.
--
-- State. A transaction is a function from the tenant's state to a result and a new state; a failure
-- carries no state, as nothing refers any more to the copy that a failing callback has written.
-- Memory/Cells has the pointers, the maps that are written in place and what a failing callback leaves
-- behind; the inner maps and the slices in the maps' entries are values there too. An operation of
-- the manager is a function from the store to its result, the store it leaves and the events it
-- sends to the security audit sink. One lock orders all calls of the in-memory store, so a run is a
-- sequence of such functions.
--
-- Bounds and fuel. A version is an int64 kept as its bit pattern, and its arithmetic wraps. The loop
-- of HasGrantPath has fuel: one round more than the edges and the start can put on its stack; a
-- round takes one entry off the stack, and each edge is pushed at most once. The digits of a
-- number have fuel of one round more than the number, and a round takes one digit off. All other
-- loops are structural recursion.
--
-- Parameters. `same_orbit` stands for the simple case folding of the Unicode tables; the policy and
-- membership readers are functions that answer or fail; a Context holds what ctx.Err answers at each
-- place that asks, and Readings what the clock answers; the host's authorizers and the audit sink are
-- functions that answer or fail; `render` stands for the JSON library; `id_key` stands for
-- argon2.IDKey, and the salt that rand.Read fills in is an argument. Go leaves the order of a range
-- over a map and the order of equal elements in sort.Slice open: the model takes the order of the
-- list that stands for the map, and a stable sort. A wrapped error is kept as its class.
--
-- Not modelled: the PostgreSQL store, the reference application, the rest of the
-- synchronisation tool (its options, the provenance, path collisions, the publication and the file
-- I/O), the command-line programs, the console and the site, the refusal of nil dependencies by the
-- constructors, and the log line written when the security audit sink fails.
pub mod Base
pub mod Text
pub mod Types
pub mod Catalog
pub mod Policy
pub mod Authorizer
pub mod Store
pub mod AdminPolicy
pub mod Memory
pub mod Manager
pub mod TenantExport
pub mod Bootstrap
pub mod Maintenance
pub mod System
pub mod Security
pub mod CoreSync
