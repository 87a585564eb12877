-- ===== src/Files/Tests.antt =====
-- A directory with a file, a symbolic link and a directory in it.
use test_at_scale.Prelude.{String, ◌⧺◌, ◌≡◌, refl, true, false, none}
use test_at_scale.Errs.{ok, err, error, got}
use test_at_scale.Files.{file, link, dir, Entries, empty, entry, Disk, copy_dir}
use test_at_scale.Files.Copied.{kept, Works, DirWorks, FileWorks, copy_dir-kept}

abbrev disk : Disk
disk = record {
  found = λ path. got false;
  lstat = λ path. none;
  info = λ path. none;
  mkdir_all = λ path. none;
  read_dir = λ path. none;
  open_file = λ path. none;
  create_file = λ path. none;
  copy_content = λ src dst. none;
  sync = λ path. none;
  chmod = λ path. none;
  close = λ path. none;
  join = λ path name. path ⧺ "/" ⧺ name;
  clean = λ path. path;
  parent = λ path. path;
  created_mode = "rw-r--r--";
  made_mode = λ mode. mode;
}

abbrev entries : Entries
entries = entry "run.sh" (file "echo" "rwxr-xr-x") (
    entry "latest" (link "run.sh")
      (entry "lib" (dir "rwx------" (entry "a" (link "b") empty)) empty))

link_is_left_out :
    copy_dir disk false "src" "dst" (dir "rwxr-xr-x" entries)
    ≡ ok (
        dir "rwxr-xr-x"
          (entry "run.sh" (file "echo" "rw-r--r--") (entry "lib" (dir "rwx------" empty) empty)))
unfolding copy_dir
link_is_left_out = refl

file_is_refused :
    copy_dir disk true "src" "dst" (file "a" "m") ≡ err (error "source is not a directory")
unfolding copy_dir
file_is_refused = refl

dir_works : (src dst : String) → DirWorks disk src dst
dir_works src dst = record { looked_up = refl; is_absent = refl; made = refl; listed = refl }

file_works : (src dst : String) → FileWorks disk src dst
file_works src dst = record {
  described = refl;
  opened = refl;
  created = refl;
  copied = refl;
  synced = refl;
  looked_up = refl;
  mode_set = refl;
  closed = refl;
}

works : Works disk "src" "dst" (dir "rwxr-xr-x" entries)
unfolding Works
works = (dir_works _ _, (file_works _ _, (refl, ((dir_works _ _, (refl, tt)), tt))))

copy_dir-kept_example :
    copy_dir disk true "src" "dst" (dir "rwxr-xr-x" entries)
    ≡ ok (kept disk true (dir "rwxr-xr-x" entries))
copy_dir-kept_example = copy_dir-kept disk true "src" "dst" "rwxr-xr-x" entries works
