-- ===== src/Pipeline/Artifacts/Accepted.antt =====
-- Which artifacts of a stage are accepted.
use datasheet_to_tscircuit.Prelude.{
  ℕ, String, codes, is_blank, contains_code, member, ◌≡◌, refl, ◌↔◌, inl, inr, true, false, none,
  List, [], ◌∷◌, Option-cases, eq_iff, arith,
}
use datasheet_to_tscircuit.Pipeline.Types.{Size, Artifact}
use datasheet_to_tscircuit.Pipeline.Result.{return}
use datasheet_to_tscircuit.Pipeline.Artifacts.{
  is_sha256, is_size, artifact_fault, validate_from, validate_artifacts,
}

-- The metadata of one artifact.
pub record IsDescribed (a : Artifact) : Type 0 where
  pub identified : is_blank (codes a.artifact_id) ≡ false
  pub placed : is_blank (codes a.path) ≡ false
  pub algorithm : a.hash.algorithm ≡ "sha256"
  pub digest : is_sha256 (codes a.hash.value) ≡ true
  pub size : (n : ℕ) × (a.size_bytes ≡ Size.whole n)
  pub media_type : contains_code b'/' (codes a.media_type) ≡ true
  pub role : is_blank (codes a.role) ≡ false

-- Each artifact is described, and its id is none of `seen` and none of an artifact before it.
abbrev pub AreAccepted : (seen : List String) → List Artifact → Type 0
AreAccepted seen [] = Unit
AreAccepted seen (a ∷ artifacts) =
    IsDescribed a
    × (member a.artifact_id seen ≡ false)
    × AreAccepted (a.artifact_id ∷ seen) artifacts

is_size_iff : (s : Size) → (is_size s ≡ true) ↔ ((n : ℕ) × (s ≡ Size.whole n))
unfolding is_size
is_size_iff (Size.whole n) = (λ _. (n, refl), λ _. refl)
is_size_iff (Size.negative n) = (λ h. cc, λ h. cc h.1)
is_size_iff Size.not_an_integer = (λ h. cc, λ h. cc h.1)

artifact_fault_to :
    (stage_id : String) (seen : List String) (a : Artifact)
    → artifact_fault stage_id seen a ≡ none
    → IsDescribed a × (member a.artifact_id seen ≡ false)
unfolding artifact_fault
artifact_fault_to stage_id seen a h = (
  record {
    identified = ground (arith, h);
    placed = ground (arith, h);
    algorithm = ground (arith, h, eq_iff a.hash.algorithm "sha256");
    digest = ground (arith, h);
    size = (is_size_iff a.size_bytes).0 (ground (arith, h));
    media_type = ground (arith, h);
    role = ground (arith, h);
  },
  ground (arith, h),
)

artifact_fault_from :
    (stage_id : String) (seen : List String) (a : Artifact)
    → IsDescribed a
    → member a.artifact_id seen ≡ false
    → artifact_fault stage_id seen a ≡ none
unfolding artifact_fault
artifact_fault_from stage_id seen a d fresh =
    let whole = (is_size_iff a.size_bytes).1 d.size in
    let same = (eq_iff a.hash.algorithm "sha256").1 d.algorithm in
    rw (d.identified, fresh, d.placed, d.digest, same, whole, d.media_type, d.role, artifact_fault)
      refl

validate_from_iff :
    (stage_id : String) (seen : List String) (artifacts : List Artifact)
    → (validate_from stage_id seen artifacts ≡ none) ↔ AreAccepted seen artifacts
unfolding validate_from
validate_from_iff stage_id seen [] = (λ _. tt, λ _. refl)
validate_from_iff stage_id seen (a ∷ artifacts) =
    let (to, from) = validate_from_iff stage_id (a.artifact_id ∷ seen) artifacts in
    elim (Option-cases (artifact_fault stage_id seen a)) [
      | inl fine ↦
          let (d, fresh) = artifact_fault_to stage_id seen a fine in
          (
            λ h. (d, fresh, to (rw (fine, validate_from) at h)),
            λ h. rw (fine, validate_from) (from h.2),
          )
      | inr (e, fault) ↦ (
        λ h. cc (rw (fault, validate_from) at h),
        λ h. cc (artifact_fault_from stage_id seen a h.0 h.1),
      )
    ]

-- The artifacts that a stage declares are accepted, as they are, exactly if each has a nonblank id, path
-- and role, a SHA-256 digest under that algorithm's name, an integer size from 0 and a media type with
-- a slash, and no two have the same id.
pub validate_artifacts_iff :
    (artifacts : List Artifact) (stage_id : String)
    → (validate_artifacts artifacts stage_id ≡ return artifacts) ↔ AreAccepted [] artifacts
unfolding validate_artifacts
validate_artifacts_iff artifacts stage_id =
    let (to, from) = validate_from_iff stage_id [] artifacts in
    elim (Option-cases (validate_from stage_id [] artifacts)) [
      | inl fine ↦ (λ h. to fine, λ h. rw (fine, validate_artifacts) refl)
      | inr (e, fault) ↦ (λ h. cc (rw (fault, validate_artifacts) at h), λ h. cc (from h))
    ]
