-- ===== src/Files/Copied.antt =====
-- What a copied directory holds, pkg/fileutils/fileutils.go.
use test_at_scale.Prelude.{String, ◌≡◌, refl, ap, ◌∙◌, Bool, true, false, none}
use test_at_scale.Errs.{ok, got}
use test_at_scale.Files.{
  Node, file, link, dir, Entries, empty, entry, Disk, copy_file, copy_dir, copy_entries,
}

abbrev pub mode_of : Disk → Bool → String → String
mode_of disk true mode = mode
mode_of disk false mode = disk.created_mode

-- A directory without its symbolic links, and with the files' own modes only where they are wanted.
unfoldable mutual
  pub kept : Disk → Bool → Node → Node
  kept disk change_mode (file content mode) = file content (mode_of disk change_mode mode)
  kept disk change_mode (link target) = link target
  kept disk change_mode (dir mode entries) =
      dir (disk.made_mode mode) (kept_entries disk change_mode entries)

  pub kept_entries : Disk → Bool → Entries → Entries
  kept_entries disk change_mode empty = empty
  kept_entries disk change_mode (entry name (link target) entries) =
      kept_entries disk change_mode entries
  kept_entries disk change_mode (entry name (file content mode) entries) =
      entry name (file content (mode_of disk change_mode mode))
        (kept_entries disk change_mode entries)
  kept_entries disk change_mode (entry name (dir mode sub) entries) =
      entry name (dir (disk.made_mode mode) (kept_entries disk change_mode sub))
        (kept_entries disk change_mode entries)

-- Every call of the file system succeeds for the paths below a source and a destination, which is not
-- there: the calls of one file, and those of a directory.
pub record FileWorks (disk : Disk) (src dst : String) : Type 0 where
  pub described : disk.info src ≡ none
  pub opened : disk.open_file src ≡ none
  pub created : disk.create_file dst ≡ none
  pub copied : disk.copy_content src dst ≡ none
  pub synced : disk.sync dst ≡ none
  pub looked_up : disk.lstat src ≡ none
  pub mode_set : disk.chmod dst ≡ none
  pub closed : disk.close dst ≡ none

pub record DirWorks (disk : Disk) (src dst : String) : Type 0 where
  pub looked_up : disk.lstat src ≡ none
  pub is_absent : disk.found dst ≡ got false
  pub made : disk.mkdir_all dst ≡ none
  pub listed : disk.read_dir src ≡ none

unfoldable mutual
  pub Works : Disk → String → String → Node → Type 0
  Works disk src dst (file content mode) = FileWorks disk src dst
  Works disk src dst (link target) = disk.info src ≡ none
  Works disk src dst (dir mode entries) =
      DirWorks disk (disk.clean src) (disk.clean dst)
      × EntriesWork disk (disk.clean src) (disk.clean dst) entries

  pub EntriesWork : Disk → String → String → Entries → Type 0
  EntriesWork disk src dst empty = Unit {0}
  EntriesWork disk src dst (entry name node entries) =
      Works disk (disk.join src name) (disk.join dst name) node × EntriesWork disk src dst entries

copy_file-kept :
    (disk : Disk) (change_mode : Bool) (src dst content mode : String)
    → FileWorks disk src dst
    → copy_file disk change_mode src dst content mode
      ≡ ok (file content (mode_of disk change_mode mode))
unfolding copy_file
copy_file-kept disk true src dst content mode w =
    rw (w.opened, w.created, w.closed, w.copied, w.synced, w.looked_up, w.mode_set) refl
copy_file-kept disk false src dst content mode w =
    rw (w.opened, w.created, w.closed, w.copied, w.synced) refl

dir-kept :
    (disk : Disk) (change_mode : Bool) (src dst mode : String) (entries copies : Entries)
    → DirWorks disk (disk.clean src) (disk.clean dst)
    → copy_entries disk change_mode (disk.clean src) (disk.clean dst) entries none ≡ ok copies
    → copy_dir disk change_mode src dst (dir mode entries) ≡ ok (dir (disk.made_mode mode) copies)
unfolding copy_dir
dir-kept disk change_mode src dst mode entries copies own copied =
    rw (own.looked_up, own.is_absent, own.made, own.listed, copied) refl

entries-kept :
    (disk : Disk) (change_mode : Bool) (src dst : String) (entries : Entries)
    → EntriesWork disk src dst entries
    → copy_entries disk change_mode src dst entries none
      ≡ ok (kept_entries disk change_mode entries)
unfolding copy_dir kept Works
entries-kept disk change_mode src dst empty w = refl
entries-kept disk change_mode src dst (entry name (link target) entries) (own, rest) =
    ap (copy_entries disk change_mode src dst entries) own
    ∙ entries-kept disk change_mode src dst entries rest
entries-kept disk change_mode src dst (entry name (file content mode) entries) (own, rest) =
    rw
      (
        own.described,
        copy_file-kept disk change_mode (disk.join src name) (disk.join dst name) content mode own,
        entries-kept disk change_mode src dst entries rest,
      )
      refl
entries-kept disk change_mode src dst (entry name (dir mode sub) entries) (own, rest) =
    let src' = disk.join src name in
    let dst' = disk.join dst name in
    let inside = entries-kept disk change_mode (disk.clean src') (disk.clean dst') sub own.1 in
    rw
      (
        dir-kept disk change_mode src' dst' mode sub (kept_entries disk change_mode sub) own.0
            inside,
        entries-kept disk change_mode src dst entries rest,
      )
      refl

-- Where every call of the file system succeeds and no destination is there yet, copying a directory
-- succeeds, and the copy is the directory without the symbolic links in it, at any depth: every other
-- entry has its name, its place and its content, a directory has what the process makes of its
-- mode, and a file has its own mode if that was asked for and the mode of new files otherwise.
pub copy_dir-kept :
    (disk : Disk) (change_mode : Bool) (src dst mode : String) (entries : Entries)
    → Works disk src dst (dir mode entries)
    → copy_dir disk change_mode src dst (dir mode entries)
      ≡ ok (kept disk change_mode (dir mode entries))
unfolding kept Works
copy_dir-kept disk change_mode src dst mode entries (own, below) =
    dir-kept disk change_mode src dst mode entries (kept_entries disk change_mode entries) own
      (entries-kept disk change_mode (disk.clean src) (disk.clean dst) entries below)
