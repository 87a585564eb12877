-- ===== src/Start.antt =====
-- cmd/synapse/bin.go and cmd/nucleus/bin.go: how the two programs are put together.
-- A fatal error of the start is the error of the result; its text is what the log then says.
pub mod Synapse
pub mod Nucleus
pub mod Tests
use test_at_scale.Prelude.{◌≡◌, String, Bool, List, [], ◌∷◌, str_eq, if◌then◌else◌}
use test_at_scale.Errs.{Err, Result, ok, err, Reply, got, refused}

abbrev pub of_reply {ℓ} : {A : Type ℓ} → Reply A → Result A
of_reply (refused e) = err e
of_reply (got a) = ok a

pub of_reply-ok : {A : Type 0} (r : Reply A) (a : A) → of_reply r ≡ ok a → r ≡ got a
of_reply-ok (got x) a h = cc
of_reply-ok (refused e) a h = cc

-- The log file lies in the folder that the configuration names, if it names one.
unfoldable pub log_location : (String → String → String) → String → String → String → String
log_location join folder name location = if str_eq folder "" then location else join folder name
