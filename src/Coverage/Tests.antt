-- ===== src/Coverage/Tests.antt =====
-- A commit on top of a parent with three directories, and a payload of one commit.
use test_at_scale.Prelude.{
  String, ◌⧺◌, ◌≡◌, refl, true, false, none, some, List, [], ◌∷◌, lookup, insert, or_else, any,
  str_eq, if◌then◌else◌,
}
use test_at_scale.Errs.{ok, foreign}
use test_at_scale.Models.{CoverageManifest}
use test_at_scale.PayloadManager.Tests.{payload, commit}
use test_at_scale.Coverage.Tree.{
  Entries, empty, file, dir, has, add_dir, remove_first, walk, paths_of,
}
use test_at_scale.Coverage.{
  Outside, Volume, CoverageData, copy_from_parent_commit_dir, parse_manifest_file, merge_and_upload,
  merge_commits, merge_commit, start_from, send_coverage_data, merge_code_coverage_files,
  upload_file, get_total_coverage, spaced,
}
use test_at_scale.Coverage.Carry.{find, find_dir, copy_from_parent_commit_dir-find}
use test_at_scale.Coverage.Reported.{AreAbout, commit_dir_of, merge_and_upload-AreAbout}

abbrev manifest : CoverageManifest
manifest = record { removed_files = []; all_files_executed = true; has_threshold = false }

abbrev path_of : List String → String
path_of [] = ""
path_of (part ∷ parts) = "/" ⧺ part ⧺ path_of parts

abbrev outside : Outside
outside = record {
  join = path_of;
  base_name = λ path. "p";
  parent_dir = "cov";
  tmp_dir = "tmp";
  not_exist = λ path. foreign ("no such file " ⧺ path);
  coverage_url = λ repo commit. ok "https://n/coverage";
  blob_url = λ link name. ok "https://b/c";
  get = λ url. ok (200, "{}");
  post = λ datas. ok 200;
  decode_parent = λ body. ok (record { bloblink = "https://b/c"; parent_commit = "p" });
  save = λ path body. none;
  decompress = λ path target. none;
  unpacked = λ commit. empty;
  copy_dir = λ source target. none;
  read_file = λ path. ok "{}";
  decode_manifest = λ body. ok manifest;
  decode_totals = λ body. ok (("total", "90") ∷ []);
  execute = λ commands. none;
  compress = λ name where_from item. none;
  open_file = λ path. none;
  create = λ path mime. ok "https://b/c/coverage-merged.json";
}

abbrev leaf : Entries
leaf = file "coverage-final.json" empty

abbrev parent : Entries
parent = dir "a.js" leaf (dir "b.js" empty (dir "c.js" leaf empty))

abbrev own : Entries
own = dir "c.js" empty empty

-- a.js is carried over, b.js was removed and c.js is the commit's own.
carries :
    copy_from_parent_commit_dir outside (("/p", parent) ∷ []) "/p" "/q" ("b.js" ∷ []) own
    ≡ ok (dir "c.js" empty (dir "a.js" leaf empty))
unfolding copy_from_parent_commit_dir walk has add_dir remove_first lookup
carries = refl

there : lookup "/p" (("/p", parent) ∷ []) ≡ some parent
unfolding lookup
there = refl

copy_from_parent_commit_dir-find_example :
    find "a.js" (dir "c.js" empty (dir "a.js" leaf empty))
    ≡ or_else
        (find "a.js" own)
        (if any (str_eq "a.js") ("b.js" ∷ []) then none else find_dir "a.js" parent)
copy_from_parent_commit_dir-find_example =
    copy_from_parent_commit_dir-find outside (("/p", parent) ∷ []) "/p" "/q" ("b.js" ∷ []) parent
      own (dir "c.js" empty (dir "a.js" leaf empty)) "a.js" there
      (refl, refl, (refl, refl, (refl, refl, tt))) carries

abbrev volume : Volume
volume = ("//cov/o1/r1/c", leaf) ∷ []

abbrev report : CoverageData
report = record {
  build_id = "b1";
  repo_id = "r1";
  commit_id = "c";
  blob_link = "https://b/c";
  total_coverage = "90";
}

reports : merge_and_upload outside payload volume ≡ ok (volume, report ∷ [])
unfolding merge_and_upload merge_commits merge_commit start_from send_coverage_data
    merge_code_coverage_files upload_file get_total_coverage parse_manifest_file paths_of lookup
    insert spaced
reports = refl

merge_and_upload-AreAbout_example :
    AreAbout payload (report ∷ []) payload.commits × (outside.post (report ∷ []) ≡ ok 200)
merge_and_upload-AreAbout_example =
    merge_and_upload-AreAbout outside payload volume (volume, report ∷ []) reports

abbrev partial : Outside
partial = record outside {
  decode_manifest = λ body. ok (record manifest { all_files_executed = false });
}

parsed :
    parse_manifest_file partial
      (path_of (commit_dir_of partial payload commit ∷ "manifest.json" ∷ []))
    ≡ ok (record manifest { all_files_executed = false })
unfolding parse_manifest_file
parsed = refl

on_volume : lookup (commit_dir_of partial payload commit) volume ≡ some leaf
unfolding lookup
on_volume = refl

nowhere : lookup "" volume ≡ none
unfolding lookup
nowhere = refl
