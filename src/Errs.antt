-- ===== src/Errs.antt =====
-- The errors of pkg/errs, and the results of fallible code.
-- An error keeps what the program looks at: which type it has, which sentinel it is, its code and
-- its text. `canceled` is an error for which `errors.Is(err, context.Canceled)` holds, and `foreign`
-- any other that code outside the repository made. `error` is a text alone: `errs.New`, `errors.New` and
-- `fmt.Errorf`, which nothing in the program tells apart.
use test_at_scale.Prelude.{◌≡◌, refl, arith, Bool, true, false, String, ◌⧺◌, Option, none, some}

-- The package variables of pkg/errs/nucleus.go that the model returns or compares with.
pub data Sentinel : Type 0 where
  secret_regex_match not_found unsupported_git_provider git_diff_not_found : Sentinel
  generic_err_remark unmarshal_json missing_access_token sub_module_not_found : Sentinel

-- `errs.Err`, without the field `URL` that nothing sets.
pub record CodedErr : Type 0 where
  pub code : String
  pub message : String

pub data Err : Type 0 where
  coded : CodedErr → Err
  error : String → Err
  sentinel : Sentinel → Err
  status_failed : String → Err
  canceled : String → Err
  foreign : String → Err

abbrev pub sentinel_message : Sentinel → String
sentinel_message secret_regex_match = "secret regex match failed"
sentinel_message not_found = "blob not found"
sentinel_message unsupported_git_provider = "unsupported gitprovider"
sentinel_message git_diff_not_found = "diff not found"
sentinel_message generic_err_remark = "Unexpected error"
sentinel_message unmarshal_json = "JSON unmarshal failed"
sentinel_message missing_access_token = "Missing OAuth access token. Please add an OAuth token"
sentinel_message sub_module_not_found = "Submodule not found in tas config file"

-- `err.Error()`
unfoldable pub message : Err → String
message (coded e) = e.code ⧺ " : " ⧺ e.message ⧺ " "
message (error text) = text
message (sentinel s) = sentinel_message s
message (status_failed remark) = remark
message (canceled text) = text
message (foreign text) = text

-- `errs.New(errs.GenericErrRemark.Error())`, a new error with the text of the sentinel.
abbrev pub generic : Err
generic = error "Unexpected error"

-- The codes of pkg/errs/synapse.go that the model uses.
abbrev pub no_error : CodedErr
no_error = record { code = ""; message = "" }

abbrev pub docker_run : String → CodedErr
docker_run e = record {
  code = "ERR::DOCKER::RUN";
  message = "Docker run failed with error:  \n" ⧺ e;
}

abbrev pub docker_crt : String → CodedErr
docker_crt e = record {
  code = "ERR::DOCKER::CRT";
  message = "Docker create failed with error:  \n" ⧺ e;
}

abbrev pub docker_strt : String → CodedErr
docker_strt e = record {
  code = "ERR::DOCKER::STRT";
  message = "Docker start failed with error:  \n" ⧺ e;
}

abbrev pub docker_vol_crt : String → CodedErr
docker_vol_crt e = record {
  code = "ERR::DOCKER::VOL::CRT";
  message = "Docker volume create failed with error:  \n" ⧺ e;
}

abbrev pub docker_cp : String → CodedErr
docker_cp e = record { code = "ERR::DOCKER::CP"; message = "Error copying file to docker:  \n" ⧺ e }

abbrev pub secret_load : String → CodedErr
secret_load e = record { code = "ERR::SECRET::LOAD"; message = "Error in loading secrets:  \n" ⧺ e }

abbrev pub cr_auth_nf : CodedErr
cr_auth_nf = record {
  code = "CR::AUTH:NF";
  message = "Container registry auth are not present for private repo";
}

-- What a call that may fail comes to. `panicked` unwinds to the next deferred `recover`.
pub data Result {ℓ} (A : Type ℓ) : Type ℓ where
  panicked : Result A
  err : Err → Result A
  ok : A → Result A

-- Going on after a call, and after a call whose answer is dropped.
module _ {κ ℓ} {B : Type κ} {A : Type ℓ} where
  infixl 5 ◌>>=◌
  abbrev pub ◌>>=◌ : Result A → (A → Result B) → Result B
  panicked >>= k = panicked
  err failure >>= k = err failure
  ok answer >>= k = k answer

  -- A chain that succeeds went on from an answer.
  pub >>=-eq-ok :
      (call : Result A) (k : A → Result B) {last : B}
      → (call >>= k) ≡ ok last
      → (answer : A) × (call ≡ ok answer) × (k answer ≡ ok last)
  >>=-eq-ok panicked k e = cc
  >>=-eq-ok (err failure) k e = cc
  >>=-eq-ok (ok answer) k e = (answer, refl, e)

infixl 5 ◌>>◌
abbrev pub ◌>>◌ {κ} : {B : Type κ} → Result (Unit {0}) → Result B → Result B
call >> next = call >>= λ unit. next

-- `if e != nil { return e }` on a call that returns an error alone.
abbrev pub check : Option Err → Result (Unit {0})
check none = ok tt
check (some e) = err e

-- `if failed { return e }`
abbrev pub refuse_if : Bool → Err → Result (Unit {0})
refuse_if true e = err e
refuse_if false e = ok tt

abbrev pub is_ok {ℓ} : {A : Type ℓ} → Result A → Bool
is_ok (ok a) = true
is_ok (err e) = false
is_ok panicked = false

pub refuse_if-ok : (b : Bool) (e : Err) → refuse_if b e ≡ ok tt → b ≡ false
refuse_if-ok b e h = ground arith

-- The answer of a call outside the repository that gives a value or an error, and does not panic.
pub data Reply {ℓ} (A : Type ℓ) : Type ℓ where
  got : A → Reply A
  refused : Err → Reply A
