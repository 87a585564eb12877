-- ===== src/Files/Archive.antt =====
-- pkg/zstd/zstd.go: archives are made and unpacked by one command of the program each.
use test_at_scale.Prelude.{String, ◌⧺◌, Bool, Option, List, [], ◌∷◌, if◌then◌else◌}
use test_at_scale.Errs.{Err, Result, check, ◌>>◌, Reply, got, refused}
use test_at_scale.Command.{Shell, execute_internal_commands}

-- The path of tar, the place of the manifest and the writing of a file.
pub record Archiver : Type 0 where
  pub exec_path : String
  pub manifest_path : String
  pub write_file : String → String → Option Err

-- `New`, from the answer of the search for tar.
unfoldable pub new : Reply String → String → (String → String → Option Err) → Reply Archiver
new (refused e) manifest write_file = refused e
new (got path) manifest write_file =
    got (record { exec_path = path; manifest_path = manifest; write_file = write_file })

-- `strings.Join(fileNames, "\n")`
unfoldable pub join_lines : List String → String
join_lines [] = ""
join_lines (name ∷ []) = name
join_lines (name ∷ next ∷ names) = name ⧺ "\n" ⧺ join_lines (next ∷ names)

abbrev pub preserving : Bool → String → String
preserving preserve_path command = if preserve_path then command ⧺ " -P" else command

abbrev pub compress_command : Archiver → String → Bool → String → String
compress_command z name preserve_path cwd = preserving preserve_path (
    z.exec_path ⧺ " --posix -I 'zstd -5 -T0' -cf " ⧺ name ⧺ " -C " ⧺ cwd ⧺ " -T " ⧺ z.manifest_path)

unfoldable pub compress :
    Archiver → Shell → String → Bool → String → List String → Result (Unit {0})
unfolding join_lines
compress z sh name preserve_path cwd files =
    check (z.write_file z.manifest_path (join_lines files))
    >> execute_internal_commands sh (compress_command z name preserve_path cwd ∷ []) cwd

abbrev pub decompress_command : Archiver → String → Bool → String → String
decompress_command z path preserve_path cwd =
    preserving preserve_path (z.exec_path ⧺ " --posix -I 'zstd -d' -xf " ⧺ path ⧺ " -C " ⧺ cwd)

unfoldable pub decompress : Archiver → Shell → String → Bool → String → Result (Unit {0})
decompress z sh path preserve_path cwd =
    execute_internal_commands sh (decompress_command z path preserve_path cwd ∷ []) cwd
