-- ===== src/Files.antt =====
-- pkg/fileutils/fileutils.go and pkg/zstd/zstd.go: copies of files and directories, and the compressor.
-- A directory is the tree that its walk meets. `Disk` says which calls of the file system fail, by the
-- path that they are given; what a copy that fails leaves behind is not kept. The destination lies
-- outside the source, so the source is the same throughout.
pub mod Copied
pub mod Archive
pub mod Tests
use test_at_scale.Prelude.{
  String, Bool, true, false, not, Option, none, some, List, [], ◌∷◌, if◌then◌else◌,
}
use test_at_scale.Errs.{
  Err, error, Result, ok, err, check, refuse_if, ◌>>=◌, ◌>>◌, Reply, got, refused,
}

-- A mode is the text that describes it; a file is anything that is no directory and no symbolic link.
mutual
  pub data Node : Type 0 where
    file : String → String → Node
    link : String → Node
    dir : String → Entries → Node

  pub data Entries : Type 0 where
    empty : Entries
    entry : String → Node → Entries → Entries

-- `found` is `Lstat` of a destination, `created_mode` the mode of a new file and `made_mode` what the
-- process makes of the mode that it asks for a directory; the calls say with which error they fail.
pub record Disk : Type 0 where
  pub found : String → Reply Bool
  pub lstat : String → Option Err
  pub info : String → Option Err
  pub mkdir_all : String → Option Err
  pub read_dir : String → Option Err
  pub open_file : String → Option Err
  pub create_file : String → Option Err
  pub copy_content : String → String → Option Err
  pub sync : String → Option Err
  pub chmod : String → Option Err
  pub close : String → Option Err
  pub join : String → String → String
  pub clean : String → String
  pub parent : String → String
  pub created_mode : String
  pub made_mode : String → String

-- The deferred `Close`, whose error replaces any other.
abbrev pub closing {ℓ} : {A : Type ℓ} → Option Err → Result A → Result A
closing (some e) r = err e
closing none r = r

-- `CopyFile` of a file with this content and mode.
abbrev pub mode_copied : Disk → Bool → String → String → String → String → Result Node
mode_copied disk false src dst content mode = ok (file content disk.created_mode)
mode_copied disk true src dst content mode =
    check (disk.lstat src) >> check (disk.chmod dst) >> ok (file content mode)

unfoldable pub copy_file : Disk → Bool → String → String → String → String → Result Node
copy_file disk change_mode src dst content mode =
    check (disk.open_file src)
    >> check (disk.create_file dst)
    >> closing (disk.close dst) (
        check (disk.copy_content src dst)
        >> check (disk.sync dst)
        >> mode_copied disk change_mode src dst content mode)

abbrev pub absent : String → Reply Bool → Result (Unit {0})
absent dst (refused e) = err e
absent dst (got false) = ok tt
absent dst (got true) = err (error "destination already exists")

abbrev pub checks : Disk → String → String → Result (Unit {0})
checks disk src dst =
    check (disk.lstat src)
    >> absent dst (disk.found dst)
    >> check (disk.mkdir_all dst)
    >> check (disk.read_dir src)

-- What the loop returns at its end: the error of the last entry, if its `Info` failed.
abbrev pub finished : Option Err → Result Entries
finished none = ok empty
finished (some e) = err e

-- An entry that is a file: its `Info`, its copy and the entries after it.
abbrev pub file_entry :
    Option Err → String → Result Node → (Option Err → Result Entries) → Result Entries
file_entry (some e) name copied rest = rest (some e)
file_entry none name copied rest =
    copied >>= λ copy. rest none >>= λ copies. ok (entry name copy copies)

-- `CopyDir`, and its loop over the entries, of which the last error is carried along.
unfoldable mutual
  unfolding copy_file

  pub copy_dir : Disk → Bool → String → String → Node → Result Node
  copy_dir disk change_mode src dst (file content mode) =
      check (disk.lstat (disk.clean src)) >> err (error "source is not a directory")
  copy_dir disk change_mode src dst (link target) =
      check (disk.lstat (disk.clean src)) >> err (error "source is not a directory")
  copy_dir disk change_mode src dst (dir mode entries) =
      checks disk (disk.clean src) (disk.clean dst)
      >> (copy_entries disk change_mode (disk.clean src) (disk.clean dst) entries none >>= λ copies.
          ok (dir (disk.made_mode mode) copies))

  pub copy_entries : Disk → Bool → String → String → Entries → Option Err → Result Entries
  copy_entries disk change_mode src dst empty last = finished last
  copy_entries disk change_mode src dst (entry name (dir mode sub) entries) last =
      copy_dir disk change_mode (disk.join src name) (disk.join dst name) (dir mode sub) >>= λ copy.
      copy_entries disk change_mode src dst entries none >>= λ copies. ok (entry name copy copies)
  copy_entries disk change_mode src dst (entry name (link target) entries) last =
      copy_entries disk change_mode src dst entries (disk.info (disk.join src name))
  copy_entries disk change_mode src dst (entry name (file content mode) entries) last =
      file_entry (disk.info (disk.join src name)) name
        (copy_file disk change_mode (disk.join src name) (disk.join dst name) content mode)
        (λ pending. copy_entries disk change_mode src dst entries pending)

-- `CheckIfExists`
unfoldable pub check_if_exists : Disk → String → Reply Bool
check_if_exists disk path = disk.found path

-- `CreateIfNotExists`
abbrev pub create_absent : Disk → String → Bool → Result (Unit {0})
create_absent disk path true = check (disk.mkdir_all path)
create_absent disk path false =
    check (disk.mkdir_all (disk.parent path)) >> check (disk.create_file path)

unfoldable pub create_if_not_exists : Disk → String → Bool → Result (Unit {0})
create_if_not_exists disk path is_dir = elim (check_if_exists disk path) [
  | refused e ↦ err e
  | got true ↦ ok tt
  | got false ↦ create_absent disk path is_dir
]
