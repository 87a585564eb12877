-- ===== src/Coverage.antt =====
-- pkg/service/coverage/coverage.go: the coverage of the commits of a build, each on top of the one before.
-- The shared volume is `Volume`, from the path of a directory to what stands in it; requests, blobs, files,
-- the archives and the script that merges answer through `Outside`. The three goroutines that upload the
-- result of a commit are taken one after another, with the first error in that order.
pub mod Tree
pub mod Carry
pub mod Reported
pub mod Tests
use test_at_scale.Prelude.{
  ℕ, String, ◌⧺◌, Bool, true, false, not, ◌&&◌, Option, none, some, List, [], ◌∷◌, ◌++◌, Dict,
  lookup, insert, is_some, has_suffix, trim_suffix, length, ltb, ◌==◌, if◌then◌else◌,
}
use test_at_scale.Errs.{Err, error, Result, ok, err, panicked, check, refuse_if, ◌>>=◌, ◌>>◌}
use test_at_scale.Models.{pos, Payload, CommitChangeList, CoverageManifest}
use test_at_scale.Format.{decimal}
use test_at_scale.Coverage.Tree.{Entries, empty, file, dir, Copying, walk, paths_of}

pub record ParentCommitCoverage : Type 0 where
  pub bloblink : String
  pub parent_commit : String

-- The total stays the text that it was read as.
pub record CoverageData : Type 0 where
  pub build_id : String
  pub repo_id : String
  pub commit_id : String
  pub blob_link : String
  pub total_coverage : String

-- `coverage_url` is the endpoint with a query; `blob_url` is a link with a path that is joined to its own.
pub record Outside : Type 0 where
  pub join : List String → String
  pub base_name : String → String
  pub parent_dir : String
  pub tmp_dir : String
  pub not_exist : String → Err
  pub coverage_url : String → String → Result String
  pub blob_url : String → String → Result String
  pub get : String → Result (ℕ × String)
  pub post : List CoverageData → Result ℕ
  pub decode_parent : String → Result ParentCommitCoverage
  pub save : String → String → Option Err
  pub decompress : String → String → Option Err
  pub unpacked : String → Entries
  pub copy_dir : String → String → Option Err
  pub read_file : String → Result String
  pub decode_manifest : String → Result CoverageManifest
  pub decode_totals : String → Result (Dict String)
  pub execute : List String → Option Err
  pub compress : String → String → String → Option Err
  pub open_file : String → Option Err
  pub create : String → String → Result String

abbrev pub Volume : Type 0
Volume = Dict Entries

abbrev pub present : Err → Option Entries → Result Entries
present e none = err e
present e (some es) = ok es

abbrev pub existing : Outside → Volume → String → Result Entries
existing io vol path = present (io.not_exist path) (lookup path vol)

abbrev pub copy_of : Outside → String → String → String → Option Err
copy_of io parent_dir commit_dir name =
    io.copy_dir (io.join (parent_dir ∷ name ∷ [])) (io.join (commit_dir ∷ name ∷ []))

abbrev expect_200 : Err → ℕ × String → Result String
expect_200 e (status, body) = refuse_if (not (status == 200)) e >> ok body

unfoldable pub get_parent_commit_coverage_dir :
    Outside → String → String → Result ParentCommitCoverage
get_parent_commit_coverage_dir io repo_id commit_id = do
  url ← io.coverage_url repo_id commit_id
  resp ← io.get url
  body ← expect_200 (error "non 200 status") resp
  io.decode_parent body

abbrev non_200 : String → ℕ → Err
non_200 url status =
    error (
      "non 200 status while cloning from endpoint "
      ⧺ url
      ⧺ ", status "
      ⧺ decimal (pos status)
      ⧺ " ")

-- What the archive of the parent commit holds is copied to the volume.
unfoldable pub download_parent : Outside → Volume → ParentCommitCoverage → String → Result Volume
download_parent io vol coverage repo_dir = do
  url ← io.blob_url coverage.bloblink "coverage-files.tzst"
  resp ← io.get url
  body ← expect_200 (non_200 url resp.0) resp
  let archive = io.join (repo_dir ∷ (coverage.parent_commit ⧺ ".tzst") ∷ [])
  let source = io.join (io.tmp_dir ∷ coverage.parent_commit ∷ [])
  let target = io.join (repo_dir ∷ coverage.parent_commit ∷ [])
  check (io.save archive body)
  check (io.decompress archive io.tmp_dir)
  check (io.copy_dir source target)
  ok (insert target (io.unpacked coverage.parent_commit) vol)

unfoldable pub copy_from_parent_commit_dir :
    Outside → Volume → String → String → List String → Entries → Result Entries
copy_from_parent_commit_dir io vol parent_dir commit_dir removed own = do
  es ← existing io vol parent_dir
  st ←
      walk (copy_of io parent_dir commit_dir) (io.base_name parent_dir) es
        (record { removed = removed; own = own })
  ok st.own

unfoldable pub parse_manifest_file : Outside → String → Result CoverageManifest
parse_manifest_file io path = do body ← io.read_file path; io.decode_manifest body

-- `strings.Join(paths, " ")`
unfoldable pub spaced : List String → String
spaced [] = ""
spaced (path ∷ []) = path
spaced (path ∷ next ∷ paths) = path ⧺ " " ⧺ spaced (next ∷ paths)

abbrev pub merge_command : String → String → Bool → List String → String
merge_command commit_dir manifest_path threshold paths =
    let command =
      "/scripts/node_modules/.bin/babel-node /scripts/mapCoverage.js --commitDir "
      ⧺ commit_dir
      ⧺ " --coverageFiles '"
      ⧺ spaced paths
      ⧺ "'" in
    if threshold then command ⧺ " --coverageManifest " ⧺ manifest_path else command

-- The directory of the commit is there, so the skipped merge of a missing one does not occur here.
unfoldable pub merge_code_coverage_files :
    Outside → Entries → String → String → Bool → Result (Unit {0})
unfolding spaced
merge_code_coverage_files io es commit_dir manifest_path threshold = do
  let paths = paths_of (λ path name. io.join (path ∷ name ∷ [])) "coverage-final.json" commit_dir es
  refuse_if (length paths == 0) (error "no coverage dirs found")
  check (io.execute (merge_command commit_dir manifest_path threshold paths ∷ []))

unfoldable pub upload_file : Outside → String → String → String → Result String
upload_file io blob_path filename commit = do
  check (io.open_file filename)
  io.create (blob_path ⧺ "/" ⧺ commit ⧺ "/" ⧺ io.base_name filename)
      (if has_suffix filename ".tzst" then "application/zstd" else "application/json")

abbrev total_in : Dict String → Result String
total_in payload = elim (lookup "total" payload) [
  | none ↦ err (error "total coverage summary not found in map")
  | some total ↦ ok total
]

unfoldable pub get_total_coverage : Outside → String → Result String
get_total_coverage io path = do
  body ← io.read_file path
  payload ← io.decode_totals body
  total_in payload

abbrev pub carried_own :
    Outside → Volume → String → String → CoverageManifest → Entries → Result Entries
carried_own io vol parent_dir commit_dir manifest own =
    if manifest.all_files_executed
    then ok own
    else copy_from_parent_commit_dir io vol parent_dir commit_dir manifest.removed_files own

-- One round of the loop of `MergeAndUpload`.
unfoldable pub merge_commit :
    Outside
    → Payload
    → String
    → String
    → Volume
    → String
    → CommitChangeList
    → Result (Volume × String × CoverageData)
unfolding trim_suffix
merge_commit io payload repo_dir blob_path vol parent_dir commit = do
  let commit_dir = io.join (repo_dir ∷ commit.sha ∷ [])
  let manifest_path = io.join (commit_dir ∷ "manifest.json" ∷ [])
  let merged_path = io.join (commit_dir ∷ "coverage-merged.json" ∷ [])
  own ← existing io vol commit_dir
  manifest ← parse_manifest_file io manifest_path
  es ← carried_own io vol parent_dir commit_dir manifest own
  merge_code_coverage_files io es commit_dir manifest_path manifest.has_threshold
  check (io.compress "coverage-files.tzst" repo_dir commit.sha)
  archive ← upload_file io blob_path "coverage-files.tzst" commit.sha
  blob ← upload_file io blob_path merged_path commit.sha
  total ← get_total_coverage io merged_path
  ok (
    insert commit_dir es vol,
    commit_dir,
    record {
      build_id = payload.build_id;
      repo_id = payload.repo_id;
      commit_id = commit.sha;
      blob_link = trim_suffix blob "/coverage-merged.json";
      total_coverage = total;
    },
  )

unfoldable pub merge_commits :
    Outside
    → Payload
    → String
    → String
    → Volume
    → String
    → List CommitChangeList
    → Result (Volume × List CoverageData)
merge_commits io payload repo_dir blob_path vol parent_dir [] = ok (vol, [])
merge_commits io payload repo_dir blob_path vol parent_dir (commit ∷ commits) = do
  done ← merge_commit io payload repo_dir blob_path vol parent_dir commit
  rest ← merge_commits io payload repo_dir blob_path done.0 done.1 commits
  ok (rest.0, done.2 ∷ rest.1)

-- The directory of the parent commit is the empty path where there is none.
unfoldable pub start_from : Outside → Payload → String → Volume → Result (Volume × String)
unfolding get_parent_commit_coverage_dir download_parent
start_from io payload repo_dir vol =
    if payload.parent_commit_coverage_exists
    then (do
      coverage ← get_parent_commit_coverage_dir io payload.repo_id payload.build_base_commit
      vol' ← download_parent io vol coverage repo_dir
      ok (vol', io.join (repo_dir ∷ coverage.parent_commit ∷ [])))
    else ok (vol, "")

unfoldable pub send_coverage_data : Outside → List CoverageData → Result (Unit {0})
send_coverage_data io payload = do
  status ← io.post payload
  refuse_if (not (status == 200)) (error "non 200 status")

unfoldable pub merge_and_upload : Outside → Payload → Volume → Result (Volume × List CoverageData)
unfolding start_from merge_commits send_coverage_data
merge_and_upload io payload vol = do
  let repo_dir = io.join (io.parent_dir ∷ payload.org_id ∷ payload.repo_id ∷ [])
  let blob_path = io.join (payload.git_provider ∷ payload.org_id ∷ payload.repo_id ∷ [])
  start ← start_from io payload repo_dir vol
  merged ← merge_commits io payload repo_dir blob_path start.0 start.1 payload.commits
  send_coverage_data io merged.1
  ok merged
