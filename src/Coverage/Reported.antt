-- ===== src/Coverage/Reported.antt =====
-- What `MergeAndUpload` of pkg/service/coverage/coverage.go reports.
use test_at_scale.Prelude.{
  ℕ, ◌==◌, not, arith, String, ◌≡◌, refl, subst, ap, ◌∙◌, false, none, some, List, [], ◌∷◌, lookup,
}
use test_at_scale.Errs.{ok, err, check, refuse_if, refuse_if-ok, error, >>=-eq-ok}
use test_at_scale.Models.{Payload, CommitChangeList, CoverageManifest}
use test_at_scale.Coverage.Tree.{Entries}
use test_at_scale.Coverage.{
  Outside, Volume, CoverageData, merge_commit, merge_commits, merge_and_upload, start_from,
  send_coverage_data, existing, parse_manifest_file, carried_own, merge_code_coverage_files,
  upload_file, get_total_coverage, copy_from_parent_commit_dir,
}

-- A report about a commit, for the build and the repository of the payload.
abbrev pub IsAbout : Payload → CoverageData → CommitChangeList → Type 0
IsAbout p d commit =
    (d.commit_id ≡ commit.sha) × (d.build_id ≡ p.build_id) × (d.repo_id ≡ p.repo_id)

-- The reports stand for the commits, one for each and in their order.
abbrev pub AreAbout : Payload → List CoverageData → List CommitChangeList → Type 0
AreAbout p [] [] = Unit
AreAbout p [] (c ∷ commits) = ⊥
AreAbout p (d ∷ datas) [] = ⊥
AreAbout p (d ∷ datas) (c ∷ commits) = IsAbout p d c × AreAbout p datas commits

same_merged : (x y : Volume × List CoverageData) → ok x ≡ ok y → x ≡ y
same_merged x y h = cc

same_done : (x y : Volume × String × CoverageData) → ok x ≡ ok y → x ≡ y
same_done x y h = cc

merge_commit-IsAbout :
    (io : Outside) (p : Payload) (repo_dir blob_path : String) (vol : Volume) (parent_dir : String)
    → (commit : CommitChangeList) (done : Volume × String × CoverageData)
    → merge_commit io p repo_dir blob_path vol parent_dir commit ≡ ok done
    → IsAbout p done.2 commit
unfolding merge_commit
merge_commit-IsAbout io p repo_dir blob_path vol parent_dir commit done h =
    let (own, _, h1) = >>=-eq-ok (existing io vol _) _ h in
    let (manifest, _, h2) = >>=-eq-ok (parse_manifest_file io _) _ h1 in
    let (es, _, h3) = >>=-eq-ok (carried_own io vol parent_dir _ manifest own) _ h2 in
    let (u, _, h4) = >>=-eq-ok (merge_code_coverage_files io es _ _ manifest.has_threshold) _ h3 in
    let (v, _, h5) =
      >>=-eq-ok (check (io.compress "coverage-files.tzst" repo_dir commit.sha)) _ h4 in
    let (archive, _, h6) =
      >>=-eq-ok (upload_file io blob_path "coverage-files.tzst" commit.sha) _ h5 in
    let (blob, _, h7) = >>=-eq-ok (upload_file io blob_path _ commit.sha) _ h6 in
    let (total, _, h8) = >>=-eq-ok (get_total_coverage io _) _ h7 in
    subst (λ d. IsAbout p d.2 commit) (same_done _ done h8) (refl, refl, refl)

merge_commits-AreAbout :
    (io : Outside) (p : Payload) (repo_dir blob_path : String) (vol : Volume) (parent_dir : String)
    → (commits : List CommitChangeList) (merged : Volume × List CoverageData)
    → merge_commits io p repo_dir blob_path vol parent_dir commits ≡ ok merged
    → AreAbout p merged.1 commits
unfolding merge_commits
merge_commits-AreAbout io p repo_dir blob_path vol parent_dir [] merged h =
    subst (λ m. AreAbout p m.1 []) (same_merged (vol, []) merged h) tt
merge_commits-AreAbout io p repo_dir blob_path vol parent_dir (c ∷ commits) merged h =
    let (done, first, h1) = >>=-eq-ok (merge_commit io p repo_dir blob_path vol parent_dir c) _ h in
    let (rest, others, h2) =
      >>=-eq-ok (merge_commits io p repo_dir blob_path done.0 done.1 commits) _ h1 in
    subst (λ m. AreAbout p m.1 (c ∷ commits)) (same_merged _ merged h2)
      (
        merge_commit-IsAbout io p repo_dir blob_path vol parent_dir c done first,
        merge_commits-AreAbout io p repo_dir blob_path done.0 done.1 commits rest others,
      )

accepted :
    (io : Outside) (datas : List CoverageData)
    → send_coverage_data io datas ≡ ok tt
    → io.post datas ≡ ok 200
unfolding send_coverage_data
accepted io datas h =
    let (status, posted, h1) = >>=-eq-ok (io.post datas) _ h in
    let is_200 : status ≡ 200 = accepted_status status h1 in posted ∙ ap ok is_200
  where
    accepted_status :
        (n : ℕ) → refuse_if (not (n == 200)) (error "non 200 status") ≡ ok tt → n ≡ 200
    accepted_status n h = ground (arith, refuse_if-ok (not (n == 200)) (error "non 200 status") h)

-- When the merge and the upload succeed, the server has accepted with 200 one report for each commit of
-- the payload, in the order of the commits, each with the sha of its commit and with the build and
-- the repository of the payload.
pub merge_and_upload-AreAbout :
    (io : Outside) (p : Payload) (vol : Volume) (merged : Volume × List CoverageData)
    → merge_and_upload io p vol ≡ ok merged
    → AreAbout p merged.1 p.commits × (io.post merged.1 ≡ ok 200)
unfolding merge_and_upload
merge_and_upload-AreAbout io p vol merged h =
    let (start, _, h1) = >>=-eq-ok (start_from io p _ vol) _ h in
    let (got, each, h2) = >>=-eq-ok (merge_commits io p _ _ start.0 start.1 p.commits) _ h1 in
    let (u, sent, h3) = >>=-eq-ok (send_coverage_data io got.1) _ h2 in
    subst (λ m. AreAbout p m.1 p.commits × (io.post m.1 ≡ ok 200)) (same_merged got merged h3)
      (merge_commits-AreAbout io p _ _ start.0 start.1 p.commits got each, accepted io got.1 sent)

abbrev pub commit_dir_of : Outside → Payload → CommitChangeList → String
commit_dir_of io p commit =
    io.join (io.join (io.parent_dir ∷ p.org_id ∷ p.repo_id ∷ []) ∷ commit.sha ∷ [])

first_fails :
    (io : Outside) (p : Payload) (repo_dir blob_path : String) (vol : Volume)
    → (commit : CommitChangeList) (commits : List CommitChangeList) (own : Entries)
      (manifest : CoverageManifest)
    → lookup "" vol ≡ none
    → lookup (io.join (repo_dir ∷ commit.sha ∷ [])) vol ≡ some own
    → parse_manifest_file io (io.join (io.join (repo_dir ∷ commit.sha ∷ []) ∷ "manifest.json" ∷ []))
      ≡ ok manifest
    → manifest.all_files_executed ≡ false
    → merge_commits io p repo_dir blob_path vol "" (commit ∷ commits) ≡ err (io.not_exist "")
unfolding merge_commits merge_commit copy_from_parent_commit_dir
first_fails io p repo_dir blob_path vol commit commits own manifest nowhere there parsed partial =
    simp (there, parsed, partial, nowhere)

-- When the parent commit has no coverage, and the manifest of the first commit says that not all files
-- were executed, the merge ends in the error that the empty path does not exist.
first_commit_needs_all_files :
    (io : Outside) (p : Payload) (vol : Volume) (commit : CommitChangeList)
    (commits : List CommitChangeList)
    → (own : Entries) (manifest : CoverageManifest) → p.parent_commit_coverage_exists ≡ false
    → lookup "" vol ≡ none
    → p.commits ≡ commit ∷ commits
    → lookup (commit_dir_of io p commit) vol ≡ some own
    → parse_manifest_file io (io.join (commit_dir_of io p commit ∷ "manifest.json" ∷ []))
      ≡ ok manifest
    → manifest.all_files_executed ≡ false
    → merge_and_upload io p vol ≡ err (io.not_exist "")
unfolding merge_and_upload start_from
first_commit_needs_all_files io p vol commit commits own manifest fresh nowhere first there parsed
      partial =
    simp (
      fresh,
      first,
      first_fails io p _ _ vol commit commits own manifest nowhere there parsed partial,
    )
