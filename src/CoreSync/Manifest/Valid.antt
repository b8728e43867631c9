-- ===== src/CoreSync/Manifest/Valid.antt =====
-- What a manifest that `ValidateManifest` takes is like.
use amsonia_core.Base.{
  ◌≡◌, ◌≢◌, ◌↔◌, refl, List, [], ◌∷◌, true, false, any, All, All-map, All-every, ◌==◌, ==_iff,
  nat_key, none, map, arith,
}
use amsonia_core.Text.{Text, text_key, codes, is_empty_iff}
use amsonia_core.Text.Space.{trim_space}
use amsonia_core.CoreSync.Paths.{is_safe_relative_path}
use amsonia_core.CoreSync.Manifest.{Entry, Manifest, check_entries, validate_manifest}

-- No text stands in the list twice.
abbrev pub IsRepeatFree : List Text → Type 0
IsRepeatFree [] = Unit
IsRepeatFree (x ∷ xs) = All (λ y. x ≢ y) xs × IsRepeatFree xs

abbrev pub IsFresh : List Text → Text → Type 0
IsFresh seen x = All (λ s. s ≢ x) seen

abbrev pub IsSafe : Entry → Type 0
IsSafe e = (is_safe_relative_path e.source ≡ true) × (is_safe_relative_path e.destination ≡ true)

any-IsFresh : (seen : List Text) (x : Text) → (any (λ s. s == x) seen ≡ false) ↔ IsFresh seen x
any-IsFresh [] x = (λ e. tt, λ h. refl)
any-IsFresh (s ∷ seen) x =
    let ih = any-IsFresh seen x in
    (
      λ e. (λ f. ground (arith, e, f, ==_iff s x), ih.0 (ground (arith, e))),
      λ h. ground (arith, h.0, ==_iff s x, ih.1 h.1),
    )

-- The texts of `xs`, one after the other, are fresh.
abbrev pub FreshAll : List Text → List Text → Type 0
FreshAll seen [] = Unit
FreshAll seen (x ∷ xs) = IsFresh seen x × FreshAll (x ∷ seen) xs

check_entries_iff :
    (ss ds : List Text) (es : List Entry)
    → (check_entries ss ds es ≡ none) ↔ (
        All IsSafe es
        × FreshAll ss (map (λ e. e.source) es)
        × FreshAll ds (map (λ e. e.destination) es))
unfolding check_entries
check_entries_iff ss ds [] = (λ e. (tt, tt, tt), λ h. refl)
check_entries_iff ss ds (e ∷ es) =
    let ih = check_entries_iff (e.source ∷ ss) (e.destination ∷ ds) es in
    let fs = any-IsFresh ss e.source in
    let fd = any-IsFresh ds e.destination in
    (
      λ h.
          let (safe, s, d) = ih.0 (ground (arith, h)) in
          (
            ((ground (arith, h), ground (arith, h)), safe),
            (fs.0 (ground (arith, h)), s),
            (fd.0 (ground (arith, h)), d),
          ),
      λ (safe, s, d). ground (arith, safe.0, fs.1 s.0, fd.1 d.0, ih.1 (safe.1, s.1, d.1)),
    )

both : (P Q : Text → Type 0) (xs : List Text) → All P xs → All Q xs → All (λ x. P x × Q x) xs
both P Q [] h k = tt
both P Q (x ∷ xs) h k = ((h.0, k.0), both P Q xs h.1 k.1)

FreshAll-iff :
    (seen xs : List Text) → FreshAll seen xs ↔ (IsRepeatFree xs × All (λ x. IsFresh seen x) xs)
FreshAll-iff seen [] = (λ h. (tt, tt), λ h. tt)
FreshAll-iff seen (x ∷ xs) =
    let Both = λ (y : Text). (x ≢ y) × IsFresh seen y in
    let ih = FreshAll-iff (x ∷ seen) xs in
    (
      λ h.
          let (free, apart) = ih.0 h.1 in
          (
            (All-map Both (λ y. x ≢ y) xs (λ y k. k.0) apart, free),
            (h.0, All-map Both (IsFresh seen) xs (λ y k. k.1) apart),
          ),
      λ ((apart, free), (first, rest)).
          (first, ih.1 (free, both (λ y. x ≢ y) (IsFresh seen) xs apart rest)),
    )

fresh-nil : (xs : List Text) → FreshAll [] xs ↔ IsRepeatFree xs
fresh-nil xs = (
  λ h. ((FreshAll-iff [] xs).0 h).0,
  λ h. (FreshAll-iff [] xs).1 (h, All-every (IsFresh []) xs (λ x. tt)),
)

-- A manifest is valid exactly where its version is 1, its repository is not blank, its license is
-- Apache-2.0, and it has an entry, where each entry has two safe paths and no source and no
-- destination stands in two entries.
pub validate_manifest_iff :
    (m : Manifest)
    → (validate_manifest m ≡ none) ↔ (
        (m.schema_version ≡ 1)
        × (trim_space m.source_repository ≢ [])
        × (m.license ≡ codes "Apache-2.0")
        × (m.entries ≢ [])
        × All IsSafe m.entries
        × IsRepeatFree (map (λ e. e.source) m.entries)
        × IsRepeatFree (map (λ e. e.destination) m.entries))
unfolding validate_manifest
validate_manifest_iff m =
    let checked = check_entries_iff [] [] m.entries in
    let sources = fresh-nil (map (λ e. e.source) m.entries) in
    let destinations = fresh-nil (map (λ e. e.destination) m.entries) in
    (
      λ e.
          let (safe, s, d) = checked.0 (ground (arith, e)) in
          (
            ground (arith, e, ==_iff m.schema_version 1),
            λ f. ground (arith, e, f, is_empty_iff (trim_space m.source_repository)),
            ground (arith, e, ==_iff m.license (codes "Apache-2.0")),
            λ f. ground (arith, e, f, is_empty_iff m.entries),
            safe,
            sources.0 s,
            destinations.0 d,
          ),
      λ (version, repository, license, some_entry, safe, s, d). ground (
        arith,
        version,
        repository,
        license,
        some_entry,
        checked.1 (safe, sources.1 s, destinations.1 d),
        ==_iff m.schema_version 1,
        ==_iff m.license (codes "Apache-2.0"),
        is_empty_iff (trim_space m.source_repository),
        is_empty_iff m.entries,
      ),
    )
