-- ===== src/Synapse/Parsing.antt =====
-- `processYMLParsingRequest` of pkg/synapse/synapse.go: the server asks synapse to validate the
-- configuration file of a commit, which pkg/tasconfigdownloader/setup.go downloads.
pub mod Answered
use test_at_scale.Prelude.{String, Option, none, some, List, [], ◌∷◌}
use test_at_scale.Errs.{Err, message, Result, ok, err, panicked}
use test_at_scale.Models.{Oauth, negsuc, pos}
use test_at_scale.Config.{Yaml}
use test_at_scale.Config.Download.{DownloaderOutput, get_tas_config}
use test_at_scale.Secrets.{SynapseConfig, get_oauth_token}
use test_at_scale.Synapse.{
  Message, MessageType, Synapse, message_of, zero_message, write_message_to_buffer,
}

pub record YmlParsingRequestMessage : Type 0 where
  pub git_provider : String
  pub commit_id : String
  pub event : String
  pub repo_slug : String
  pub tas_file_name : String
  pub license_tier : String
  pub org_id : String
  pub build_id : String

-- The output is the zero value beside an error message.
pub record YmlParsingResultMessage : Type 0 where
  pub error_msg : String
  pub org_id : String
  pub build_id : String
  pub yml_output : Option DownloaderOutput

-- JSON, the download of a file with a token, and the removal of a file. A decoder gives what it leaves in
-- the pointer, and its error.
pub record Host : Type 0 where
  pub yaml : Yaml
  pub download : YmlParsingRequestMessage → Oauth → Result String
  pub remove : String → Option Err
  pub decode : String → Option YmlParsingRequestMessage × Option Err
  pub encode : YmlParsingResultMessage → Option String

unfoldable pub create_yml_parsing_result_message : Host → YmlParsingResultMessage → Message
create_yml_parsing_result_message host r = message_of MessageType.yml_parsing_result (host.encode r)

abbrev pub failed_for : YmlParsingRequestMessage → Err → YmlParsingResultMessage
failed_for req e = record {
  error_msg = message e;
  org_id = req.org_id;
  build_id = req.build_id;
  yml_output = none;
}

abbrev pub result_for :
    YmlParsingRequestMessage → Result DownloaderOutput → Result YmlParsingResultMessage
result_for req panicked = panicked
result_for req (err e) = ok (failed_for req e)
result_for req (ok out) =
    ok (record {
      error_msg = "";
      org_id = req.org_id;
      build_id = req.build_id;
      yml_output = some out;
    })

abbrev pub parsed :
    Host
    → SynapseConfig
    → Option YmlParsingRequestMessage × Option Err
    → Result YmlParsingResultMessage
parsed host cfg (none, e) = panicked
parsed host cfg (some req, some e) = ok (failed_for req e)
parsed host cfg (some req, none) = result_for req (
    get_tas_config host.yaml host.remove (host.download req (get_oauth_token cfg)) req.event
      req.license_tier req.tas_file_name)

-- The deferred write, which a panic comes to as well.
abbrev pub written : Host → Synapse → Result YmlParsingResultMessage → Synapse × Result (Unit {0})
written host s (ok r) =
    (write_message_to_buffer (create_yml_parsing_result_message host r) s, ok tt)
written host s (err e) = (write_message_to_buffer zero_message s, err e)
written host s panicked = (write_message_to_buffer zero_message s, panicked)

unfoldable pub process_yml_parsing_request :
    Host → SynapseConfig → Message → Synapse → Synapse × Result (Unit {0})
process_yml_parsing_request host cfg m s = written host s (parsed host cfg (host.decode m.content))
