-- ===== src/Git.antt =====
-- pkg/gitmanager/setup.go: the clone of a repository and the download of one file, with the addresses of
-- pkg/urlmanager, the requests of pkg/requestutils and the commands of pkg/command.
-- Files, the archiver, base64, the parsing of addresses and new names answer through `Disk`.
pub mod Parts
pub mod Cloned
pub mod Tests
use test_at_scale.Prelude.{
  ℕ, String, ◌⧺◌, Bool, true, false, not, ◌&&◌, ◌||◌, Option, none, some, List, [], ◌∷◌, Dict,
  has_suffix, ltb, str_eq, if◌then◌else◌,
}
use test_at_scale.Errs.{
  Err, error, Reply, got, refused, Result, ok, err, panicked, check, refuse_if, ◌>>=◌, ◌>>◌,
}
use test_at_scale.Models.{Payload, Oauth, pos, basic, bitbucket, gitlab}
use test_at_scale.Format.{decimal}
use test_at_scale.Url.{Globals, get_clone_url, get_file_download_url, replace_all}
use test_at_scale.Requests.{Web, make_api_request}
use test_at_scale.Git.Parts.{last_item, before_colon, behind_colon}
use test_at_scale.Command.{Shell, execute_internal_commands}

pub record Disk : Type 0 where
  pub write_file : String → String → Option Err
  pub unarchive : String → String → Option Err
  pub dir_of : String → String
  pub decode_base64 : String → Result String
  pub parse_url : String → Option Err
  pub with_user : String → String → String → String
  pub uuid : String

abbrev pub get_header_map : Oauth → Dict String
get_header_map oauth = ("Authorization", oauth.type ⧺ " " ⧺ oauth.access_token) ∷ []

abbrev pub fetched : Reply (ℕ × String) → Result String
fetched (refused e) = err e
fetched (got (status, body)) =
    refuse_if (not (ltb status 300))
      (error ("received non 200 status code [" ⧺ decimal (pos status) ⧺ "]"))
    >> ok body

abbrev pub fetch : Web → String → Oauth → Result String
fetch web url oauth = fetched (make_api_request web "GET" url "" [] (get_header_map oauth))

-- An archive is unpacked beside itself, and moved to the directory of the repository.
unfoldable pub copy_and_extract_file : Disk → Shell → String → String → Result (Unit {0})
copy_and_extract_file disk shell body path = do
  check (disk.write_file path body)
  check (
      if has_suffix path ".zip" then disk.unarchive path (disk.dir_of path ⧺ "/clonedir") else none)
  execute_internal_commands shell
      (("mkdir " ⧺ "/home/nucleus/repo")
        ∷ ("mv " ⧺ disk.dir_of path ⧺ "/clonedir/*/* " ⧺ "/home/nucleus/repo")
        ∷ [])
      (disk.dir_of path)

unfoldable pub download_file : Disk → Shell → Web → String → String → Oauth → Result (Unit {0})
unfolding copy_and_extract_file
download_file disk shell web archive_url file_name oauth = do
  body ← fetch web archive_url oauth
  copy_and_extract_file disk shell body file_name

-- The second part of a token without a colon is read out of range.
abbrev pub basic_user : Disk → String → String → Option String → Result String
basic_user disk repo_link user none = panicked
basic_user disk repo_link user (some rest) = ok (disk.with_user repo_link user (before_colon rest))

unfoldable pub url_with_token : Disk → Payload → Oauth → String → Result String
url_with_token disk p oauth repo_link =
    if str_eq oauth.type basic
    then (disk.decode_base64 oauth.access_token >>= λ token.
        basic_user disk repo_link (before_colon token) (behind_colon token))
    else if str_eq p.git_provider gitlab
    then ok (disk.with_user repo_link "oauth2" oauth.access_token)
    else ok (disk.with_user repo_link "x-token-auth" oauth.access_token)

-- The address of the fork, for Bitbucket.
abbrev pub fork_link : Payload → String
fork_link p =
    if str_eq p.git_provider bitbucket && not (str_eq p.fork_slug "")
    then replace_all p.repo_link p.repo_slug p.fork_slug
    else p.repo_link

abbrev pub git_commands : Payload → String → String → List String
git_commands p repo_link with_token =
    "git init"
    ∷ ("git remote add origin " ⧺ repo_link ⧺ ".git")
    ∷ ("git config --global url." ⧺ with_token ⧺ ".InsteadOf " ⧺ repo_link)
    ∷ ("git fetch --depth=1 origin +" ⧺ p.build_target_commit ⧺ ":refs/remotes/origin/"
        ⧺ p.branch_name)
    ∷ ("git config --global --remove-section url." ⧺ with_token)
    ∷ ("git checkout --progress --force -B " ⧺ p.branch_name ⧺ " refs/remotes/origin/"
        ⧺ p.branch_name)
    ∷ []

unfoldable pub init_git : Disk → Shell → Payload → Oauth → Result (Unit {0})
unfolding url_with_token
init_git disk shell p oauth = do
  check (disk.parse_url (fork_link p))
  with_token ← url_with_token disk p oauth (fork_link p)
  execute_internal_commands shell (git_commands p (fork_link p) with_token) "/home/nucleus/repo"

unfoldable pub clone : Globals → Disk → Shell → Web → Payload → Oauth → Result (Unit {0})
unfolding download_file init_git
clone g disk shell web p oauth = do
  archive_url ←
      get_clone_url g p.git_provider p.repo_link (last_item p.repo_link) p.build_target_commit
        p.fork_slug p.repo_slug
  download_file disk shell web archive_url (p.build_target_commit ⧺ ".zip") oauth
  init_git disk shell p oauth

-- The name of the file that the content of one file of a commit is written to.
unfoldable pub download_file_by_commit :
    Globals → Disk → Web → String → String → String → String → Oauth → Result String
download_file_by_commit g disk web provider repo_slug commit_id file_path oauth = do
  url ← get_file_download_url g provider commit_id repo_slug file_path
  body ← fetch web url oauth
  check (disk.write_file (disk.uuid ⧺ ".yml") body)
  ok (disk.uuid ⧺ ".yml")
