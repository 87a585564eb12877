-- ===== src/Git/Cloned.antt =====
-- What a clone of pkg/gitmanager/setup.go has done when it succeeds.
use test_at_scale.Prelude.{
  ℕ, String, ◌⧺◌, ◌≡◌, ◌≢◌, refl, ap, not, Option, none, some, [], ◌∷◌, ltb, false, Bool-cases, inl,
  inr, subst, str_eq, eq_iff, arith,
}
use test_at_scale.Errs.{Result, Err, Reply, got, refused, ok, check, refuse_if, >>=-eq-ok}
use test_at_scale.Models.{Payload, Oauth, basic, gitlab}
use test_at_scale.Url.{Globals, get_clone_url}
use test_at_scale.Requests.{Web, make_api_request}
use test_at_scale.Command.{Shell, execute_internal_commands}
use test_at_scale.Git.Parts.{last_item, before_colon, behind_colon}
use test_at_scale.Git.{
  Disk, clone, download_file, copy_and_extract_file, init_git, fetch, fetched, get_header_map,
  url_with_token, fork_link, basic_user,
}

check-ok : (o : Option Err) (u : Unit {0}) → check o ≡ ok u → o ≡ none
check-ok none u h = refl
check-ok (some e) u h = cc

text-inj : {x y : String} → ◌≡◌ {A = Result String} (ok x) (ok y) → x ≡ y
text-inj h = cc

fetched-ok :
    (r : Reply (ℕ × String)) (body : String)
    → fetched r ≡ ok body
    → (status : ℕ) × (r ≡ got (status, body))
fetched-ok (refused e) body h = cc
fetched-ok (got (status, b)) body h =
    let (u, small, h1) = >>=-eq-ok (refuse_if (not (ltb status 300)) _) (λ u. ok b) h in
    (status, ap (λ x. got (status, x)) (text-inj h1))

-- The archive at an address, fetched with the token and written under the name of the commit.
abbrev pub IsFetched : Disk → Web → Payload → Oauth → String → Type 0
IsFetched disk web p oauth url =
    (status : ℕ) × (body : String) × (make_api_request web "GET" url "" []
        (("Authorization", oauth.type ⧺ " " ⧺ oauth.access_token) ∷ [])
      ≡ got (status, body))
    × (disk.write_file (p.build_target_commit ⧺ ".zip") body ≡ none)

-- An address with a user and a password: the two parts of a decoded Basic token, or the token behind the
-- user that GitLab, or any other host, has for it.
pub data Carries (disk : Disk) (p : Payload) (oauth : Oauth) (link : String) : String → Type 0 where
  by_parts :
      {token password : String}
      → oauth.type ≡ "Basic"
      → disk.decode_base64 oauth.access_token ≡ ok token
      → behind_colon token ≡ some password
      → Carries disk p oauth link (disk.with_user link (before_colon token) (before_colon password))
  by_gitlab :
      oauth.type ≢ "Basic"
      → p.git_provider ≡ "gitlab"
      → Carries disk p oauth link (disk.with_user link "oauth2" oauth.access_token)
  by_others :
      oauth.type ≢ "Basic"
      → p.git_provider ≢ "gitlab"
      → Carries disk p oauth link (disk.with_user link "x-token-auth" oauth.access_token)

-- The commands of git, run in the repository with an address that carries the token.
abbrev pub IsInitialized : Disk → Shell → Payload → Oauth → Type 0
IsInitialized disk shell p oauth =
    (with_token : String) × Carries disk p oauth (fork_link p) with_token
    × (execute_internal_commands shell
          ("git init"
            ∷ ("git remote add origin " ⧺ fork_link p ⧺ ".git")
            ∷ ("git config --global url." ⧺ with_token ⧺ ".InsteadOf " ⧺ fork_link p)
            ∷ ("git fetch --depth=1 origin +" ⧺ p.build_target_commit ⧺ ":refs/remotes/origin/"
                ⧺ p.branch_name)
            ∷ ("git config --global --remove-section url." ⧺ with_token)
            ∷ ("git checkout --progress --force -B " ⧺ p.branch_name ⧺ " refs/remotes/origin/"
                ⧺ p.branch_name)
            ∷ [])
          "/home/nucleus/repo"
        ≡ ok tt)

basic_user-Carries :
    (disk : Disk) (p : Payload) (oauth : Oauth) (link token : String) (o : Option String)
    (with_token : String)
    → oauth.type ≡ "Basic"
    → disk.decode_base64 oauth.access_token ≡ ok token
    → behind_colon token ≡ o
    → basic_user disk link (before_colon token) o ≡ ok with_token
    → Carries disk p oauth link with_token
basic_user-Carries disk p oauth link token none w is_basic decoded split h = cc
basic_user-Carries disk p oauth link token (some password) w is_basic decoded split h =
    subst (Carries disk p oauth link) (text-inj h) (by_parts is_basic decoded split)

apart : (s t : String) → str_eq s t ≡ false → s ≢ t
apart s t h e = absurd (ground (arith, eq_iff s t))

url_with_token-Carries :
    (disk : Disk) (p : Payload) (oauth : Oauth) (link with_token : String)
    → url_with_token disk p oauth link ≡ ok with_token
    → Carries disk p oauth link with_token
unfolding url_with_token
url_with_token-Carries disk p oauth link w h = elim (Bool-cases (str_eq oauth.type basic)) [
  | inl is_basic ↦
      let (token, decoded, h1) =
        >>=-eq-ok (disk.decode_base64 oauth.access_token) _ (rw is_basic at h) in
      basic_user-Carries disk p oauth link token (behind_colon token) w
        ((eq_iff oauth.type basic).0 is_basic) decoded refl h1
  | inr other ↦ elim (Bool-cases (str_eq p.git_provider gitlab)) [
    | inl on_gitlab ↦
        subst (Carries disk p oauth link) (text-inj (rw (other, on_gitlab) at h))
          (by_gitlab (apart oauth.type basic other) ((eq_iff p.git_provider gitlab).0 on_gitlab))
    | inr elsewhere ↦
        subst (Carries disk p oauth link) (text-inj (rw (other, elsewhere) at h))
          (by_others (apart oauth.type basic other) (apart p.git_provider gitlab elsewhere))
  ]
]

download_file-IsFetched :
    (disk : Disk) (shell : Shell) (web : Web) (p : Payload) (oauth : Oauth) (url : String)
    (u : Unit {0})
    → download_file disk shell web url (p.build_target_commit ⧺ ".zip") oauth ≡ ok u
    → IsFetched disk web p oauth url
unfolding download_file copy_and_extract_file
download_file-IsFetched disk shell web p oauth url u h =
    let (body, got_body, h1) = >>=-eq-ok (fetch web url oauth) _ h in
    let (v, written, h2) =
      >>=-eq-ok (check (disk.write_file (p.build_target_commit ⧺ ".zip") body)) _ h1 in
    let (status, answered) =
      fetched-ok (make_api_request web "GET" url "" [] (get_header_map oauth)) body got_body in
    (
      status,
      body,
      answered,
      check-ok (disk.write_file (p.build_target_commit ⧺ ".zip") body) v written,
    )

init_git-IsInitialized :
    (disk : Disk) (shell : Shell) (p : Payload) (oauth : Oauth)
    → init_git disk shell p oauth ≡ ok tt
    → IsInitialized disk shell p oauth
unfolding init_git
init_git-IsInitialized disk shell p oauth h =
    let (v, parsed, h1) = >>=-eq-ok (check (disk.parse_url (fork_link p))) _ h in
    let (with_token, made, h2) = >>=-eq-ok (url_with_token disk p oauth (fork_link p)) _ h1 in
    (with_token, url_with_token-Carries disk p oauth (fork_link p) with_token made, h2)

-- A clone that succeeds has fetched, with the token, the archive at the address that the URL manager gives
-- for the payload, has written it under the name of the commit, and has then run the commands of
-- git in the repository with an address that carries the token.
pub clone-IsFetched :
    (g : Globals) (disk : Disk) (shell : Shell) (web : Web) (p : Payload) (oauth : Oauth)
    → clone g disk shell web p oauth ≡ ok tt
    → (url : String) × (get_clone_url g p.git_provider p.repo_link
          (last_item p.repo_link)
          p.build_target_commit
          p.fork_slug
          p.repo_slug
        ≡ ok url)
      × IsFetched disk web p oauth url
      × IsInitialized disk shell p oauth
unfolding clone
clone-IsFetched g disk shell web p oauth h =
    let (url, found, h1) =
      >>=-eq-ok
        (get_clone_url g p.git_provider p.repo_link (last_item p.repo_link) p.build_target_commit
          p.fork_slug p.repo_slug)
        _ h in
    let (u, downloaded, h2) =
      >>=-eq-ok (download_file disk shell web url (p.build_target_commit ⧺ ".zip") oauth) _ h1 in
    (
      url,
      found,
      download_file-IsFetched disk shell web p oauth url u downloaded,
      init_git-IsInitialized disk shell p oauth h2,
    )
