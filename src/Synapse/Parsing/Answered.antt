-- ===== src/Synapse/Parsing/Answered.antt =====
-- How synapse answers a request to parse a configuration file, pkg/synapse/synapse.go.
use test_at_scale.Prelude.{◌≡◌, ◌≢◌, refl, ap, ◌∙◌, none, some, String, true}
use test_at_scale.Errs.{message, Result, ok, err, panicked}
use test_at_scale.Config.Download.{DownloaderOutput, get_tas_config}
use test_at_scale.Secrets.{SynapseConfig, get_oauth_token}
use test_at_scale.Synapse.{Message, MessageType, Synapse, write_message_to_buffer}
use test_at_scale.Synapse.Parsing.{
  Host, YmlParsingRequestMessage, YmlParsingResultMessage, create_yml_parsing_result_message,
  process_yml_parsing_request, result_for, parsed, written, failed_for,
}

-- What the downloader says of the file that a request names.
abbrev pub config_of : Host → SynapseConfig → YmlParsingRequestMessage → Result DownloaderOutput
config_of host cfg req =
    get_tas_config host.yaml host.remove (host.download req (get_oauth_token cfg)) req.event
      req.license_tier req.tas_file_name

-- The answer holds the configuration, or the text of the error.
abbrev pub Says : Result DownloaderOutput → YmlParsingResultMessage → Type 0
Says (ok out) r = (r.yml_output ≡ some out) × (r.error_msg ≡ "")
Says (err e) r = (r.yml_output ≡ none) × (r.error_msg ≡ message e)
Says panicked r = ⊥

result_for-Says :
    (host : Host) (s : Synapse) (req : YmlParsingRequestMessage) (out : Result DownloaderOutput)
    → out ≢ panicked
    → (r : YmlParsingResultMessage) × (r.org_id ≡ req.org_id)
      × (r.build_id ≡ req.build_id)
      × Says out r
      × (written host s (result_for req out)
          ≡ (write_message_to_buffer (create_yml_parsing_result_message host r) s, ok tt))
result_for-Says host s req (ok out) h = (_, refl, refl, (refl, refl), refl)
result_for-Says host s req (err e) h = (failed_for req e, refl, refl, (refl, refl), refl)
result_for-Says host s req panicked h = absurd (h refl)

-- A message that says that it is a result of parsing, and which of them.
abbrev pub Announces : Host → YmlParsingResultMessage → Message → Type 0
Announces host r m =
    (m.type ≡ MessageType.yml_parsing_result)
    × (host.encode r ≡ some m.content)
    × (m.success ≡ true)

create-Announces :
    (host : Host) (r : YmlParsingResultMessage) (text : String)
    → host.encode r ≡ some text
    → Announces host r (create_yml_parsing_result_message host r)
unfolding create_yml_parsing_result_message
create-Announces host r text h = rw h (refl, refl, refl)

-- A request that decodes, and whose file the downloader does not panic on, is answered by exactly one
-- message, written behind the others, provided that JSON encodes every result: a result of parsing whose
-- content encodes the organisation and the build of the request, and the configuration if the downloader
-- accepts the file, else the text of its error.
pub process_yml_parsing_request-Says :
    (host : Host) (cfg : SynapseConfig) (m : Message) (s : Synapse) (req : YmlParsingRequestMessage)
    → host.decode m.content ≡ (some req, none)
    → config_of host cfg req ≢ panicked
    → ((r : YmlParsingResultMessage) → (text : String) × (host.encode r ≡ some text))
    → (r : YmlParsingResultMessage) × (r.org_id ≡ req.org_id)
      × (r.build_id ≡ req.build_id)
      × Says (config_of host cfg req) r
      × (answer : Message) × Announces host r answer
      × (process_yml_parsing_request host cfg m s ≡ (write_message_to_buffer answer s, ok tt))
unfolding process_yml_parsing_request
process_yml_parsing_request-Says host cfg m s req decoded calm encodes =
    let (r, org, build, says, answered) =
      result_for-Says host s req (config_of host cfg req) calm in
    let (text, encoded) = encodes r in
    (
      r,
      org,
      build,
      says,
      create_yml_parsing_result_message host r,
      create-Announces host r text encoded,
      ap (λ d. written host s (parsed host cfg d)) decoded ∙ answered,
    )
