-- ===== src/Utils/Host.antt =====
-- The helpers of pkg/utils/utils.go that call the system: files, directories, identifiers and values
-- of any type. The file system answers through `System`.
use Prim.Native.Char.{code}
use Prim.Native.String.{[], ◌∷◌}
use mathlib.Core.List.{[], ◌∷◌}
use test_at_scale.Prelude.{String, ◌⧺◌, Bool, Option, none, some, Dict, ◌==◌, if◌then◌else◌}
use test_at_scale.Errs.{Err, CodedErr, coded, message, Result, ok, panicked, ◌>>=◌, Reply, refused}

-- `is_absent` is `os.IsNotExist` of `Lstat`.
pub record System : Type 0 where
  pub is_absent : String → Bool
  pub mkdir_all : String → Option Err
  pub remove_all : String → Option Err
  pub write_file : String → String → Option Err
  pub open_file : String → Option Err
  pub md5_of : String → Reply String

abbrev pub dir_crt : String → CodedErr
dir_crt e = record { code = "ERR::DIR::CRT"; message = "Unable to create directory :  \n" ⧺ e }

abbrev pub dir_del : String → CodedErr
dir_del e = record { code = "ERR::DIR::DEL"; message = "Unable to delete directory :  \n" ⧺ e }

abbrev pub fil_crt : String → CodedErr
fil_crt e = record { code = "ERR::FIL::CRT"; message = "Unable to create file :  \n" ⧺ e }

abbrev pub as_coded : (String → CodedErr) → Option Err → Option Err
as_coded wrap none = none
as_coded wrap (some e) = some (coded (wrap (message e)))

unfoldable pub create_directory : System → String → Option Err
create_directory sys path =
    if sys.is_absent path then as_coded dir_crt (sys.mkdir_all path) else none

unfoldable pub delete_directory : System → String → Option Err
delete_directory sys path = as_coded dir_del (sys.remove_all path)

unfoldable pub write_file_to_directory : System → String → String → String → Option Err
write_file_to_directory sys path filename content =
    as_coded fil_crt (sys.write_file (path ⧺ "/" ⧺ filename) content)

-- `ComputeChecksum`; `md5_of` is the sum of the content in hexadecimal digits.
unfoldable pub compute_checksum : System → String → Reply String
compute_checksum sys filename = elim (sys.open_file filename) [
  | some e ↦ refused e
  | none ↦ sys.md5_of filename
]

-- A value of Go's empty interface, as far as the conversion tells.
pub data Any : Type 0 where
  text_value : String → Any
  other_value : Any

-- `InterfaceToMap` of a map, which panics at a value that is no text.
abbrev pub as_text : Any → Result String
as_text (text_value s) = ok s
as_text other_value = panicked

unfoldable pub interface_to_map : Dict Any → Result (Dict String)
interface_to_map [] = ok []
interface_to_map ((key, value) ∷ entries) = do
  text ← as_text value
  rest ← interface_to_map entries
  ok ((key, text) ∷ rest)

-- `GenerateUUID` drops the dashes of the text of a new identifier.
unfoldable pub without_dashes : String → String
without_dashes [] = []
without_dashes (c ∷ s) = let rest = without_dashes s in if code c == 45 then rest else c ∷ rest
