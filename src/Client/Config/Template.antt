-- ===== src/Client/Config/Template.antt =====
-- client/config/utilities.go: the template of a configuration file, and its writing.
use loopix_messaging.Prelude.{
  List, [], ◌∷◌, ◌++◌, Bool, true, false, Option, none, some, Bytes, bytes, String, Result, ok, err,
  ◌>>=◌, ◌>>◌, library,
}
use loopix_messaging.Messages.{Float64}
use loopix_messaging.Client.Config.{Client, Logging, Debug, Config}

abbrev pub lines : List String → Bytes
lines [] = []
lines (l ∷ ls) = bytes l ++ (10 ∷ lines ls)

-- The places of the template where a value stands, in their order.
pub data Place : Type 0 where
  at_id at_directory_server_topology at_private_key at_public_key : Place
  at_provider_id at_mix_apps_directory at_home_directory at_disable : Place
  at_file at_level at_loop_cover_traffic_rate at_fetch_message_rate : Place
  at_message_sending_rate at_covers_disabled : Place

abbrev pub places : List Place
places =
    at_id ∷ at_directory_server_topology ∷ at_private_key ∷ at_public_key ∷ at_provider_id
    ∷ at_mix_apps_directory ∷ at_home_directory ∷ at_disable ∷ at_file ∷ at_level
    ∷ at_loop_cover_traffic_rate ∷ at_fetch_message_rate ∷ at_message_sending_rate
    ∷ at_covers_disabled ∷ []

-- The text between the place before and this one.
unfoldable pub text_before : Place → Bytes
text_before at_id =
    lines (
      "# This is a TOML config file."
      ∷ "# For more information, see https://github.com/toml-lang/toml" ∷ ""
      ∷ "##### main base client config options #####" ∷ "[client]" ∷ ""
      ∷ "# Human readable ID of this particular client." ∷ [])
    ++ bytes "id = \""
text_before at_directory_server_topology =
    lines ("\"" ∷ "" ∷ "# URL to the topology endpoint of the directory server." ∷ [])
    ++ bytes "directory_server_topology = \""
text_before at_private_key =
    lines ("\"" ∷ "" ∷ "# Path to file containing private key." ∷ []) ++ bytes "priv_key_file = \""
text_before at_public_key =
    lines ("\"" ∷ "" ∷ "# Path to file containing public key." ∷ []) ++ bytes "pub_key_file = \""
text_before at_provider_id =
    lines (
      "\"" ∷ "" ∷ "##### additional client config options #####" ∷ ""
      ∷ "# ID of the provider to which the client should send messages." ∷ [])
    ++ bytes "provider_id = \""
text_before at_mix_apps_directory =
    lines (
      "\"" ∷ ""
      ∷ "# directory for mixapps, such as a chat client, to store their app-specific data." ∷ [])
    ++ bytes "mixapps_directory = \""
text_before at_home_directory =
    lines (
      "\"" ∷ "" ∷ "##### advanced configuration options #####" ∷ ""
      ∷ "# Absolute path to the home Nym Clients directory." ∷ [])
    ++ bytes "nym_home_directory = \""
text_before at_disable =
    lines (
      "\"" ∷ "" ∷ "##### logging configuration options #####" ∷ "[logging]" ∷ ""
      ∷ "# Whether to disable disables logging entirely." ∷ [])
    ++ bytes "disable = "
text_before at_file =
    lines ("" ∷ "" ∷ "# The log file. If omitted or set to empty value, stdout will be used." ∷ [])
    ++ bytes "file = \""
text_before at_level =
    lines (
      "\"" ∷ "" ∷ "# The logging level of the client. The available options include:"
      ∷ "# trace, debug, info, warning, error, panic, fatal"
      ∷ "# Warning: The 'trace' and 'debug' log levels are unsafe for production use." ∷ [])
    ++ bytes "level = \""
text_before at_loop_cover_traffic_rate =
    lines (
      "\"" ∷ "" ∷ "##### debug configuration options #####" ∷ "[debug]" ∷ ""
      ∷ "# The rate at which clients are sending loop packets in the loop cover traffic stream."
      ∷ "# The value is the parameter of an exponential distribution, and is the reciprocal of the"
      ∷ "# expected value of the exponential distribution."
      ∷ "# If set to a negative value, the loop cover traffic stream will be disabled." ∷ [])
    ++ bytes "loop_cover_traffic_rate = "
text_before at_fetch_message_rate =
    lines (
      "" ∷ "" ∷ "# The rate at which clients are querying the providers for received packets."
      ∷ "# The value is the parameter of an exponential distribution, and is the reciprocal of the"
      ∷ "# expected value of the exponential distribution."
      ∷ "# If set to a negative value, client will never try to fetch its messages." ∷ [])
    ++ bytes "fetch_message_rate = "
text_before at_message_sending_rate =
    lines (
      "" ∷ "" ∷ "# The rate at which clients are sending their real traffic to providers."
      ∷ "# If no real packets are available and cover traffic is enabled,"
      ∷ "# a drop cover message is sent instead in order to preserve the rate."
      ∷ "# The value is the parameter of an exponential distribution, and is the reciprocal of the"
      ∷ "# expected value of the exponential distribution."
      ∷ "# If set to a negative value, client will never try to send real traffic data." ∷ [])
    ++ bytes "message_sending_rate = "
text_before at_covers_disabled =
    lines (
      "" ∷ "" ∷ "# Whether loop cover messages should be sent to respect message_sending_rate."
      ∷ "# In the case of it being disabled and not having enough real traffic"
      ∷ "# waiting to be sent the actual sending rate is going be lower than the desired value"
      ∷ "# thus decreasing the anonymity." ∷ [])
    ++ bytes "rate_compliant_cover_messages_disabled = "

abbrev pub last_text : Bytes
last_text = lines ("" ∷ "" ∷ "" ∷ [])

-- `{{ b }}` for a Boolean.
abbrev pub text_of : Bool → Bytes
text_of true = bytes "true"
text_of false = bytes "false"

-- `format_floats` is `Sprintf` with "%.2f". Nothing is escaped.
abbrev pub value_at : (Float64 → Bytes) → Client → Logging → Debug → Place → Bytes
value_at format_floats c l d at_id = c.id
value_at format_floats c l d at_directory_server_topology = c.directory_server_topology_endpoint
value_at format_floats c l d at_private_key = c.private_key
value_at format_floats c l d at_public_key = c.public_key
value_at format_floats c l d at_provider_id = c.provider_id
value_at format_floats c l d at_mix_apps_directory = c.mix_apps_directory
value_at format_floats c l d at_home_directory = c.home_directory
value_at format_floats c l d at_disable = text_of l.disable
value_at format_floats c l d at_file = l.file
value_at format_floats c l d at_level = l.level
value_at format_floats c l d at_loop_cover_traffic_rate = format_floats d.loop_cover_traffic_rate
value_at format_floats c l d at_fetch_message_rate = format_floats d.fetch_message_rate
value_at format_floats c l d at_message_sending_rate = format_floats d.message_sending_rate
value_at format_floats c l d at_covers_disabled = text_of d.rate_compliant_cover_messages_disabled

abbrev pub fill_in : (Place → Bytes) → List Place → Bytes
fill_in value [] = last_text
fill_in value (p ∷ ps) = text_before p ++ (value p ++ fill_in value ps)

-- A field of a part that is nil is an error of `text/template`.
abbrev pub part : {A : Type 0} → Option A → Result A
part none = err (library 6)
part (some a) = ok a

unfoldable pub execute_template : (Float64 → Bytes) → Config → Result Bytes
execute_template format_floats cfg = do
  c ← part cfg.client
  l ← part cfg.logging
  d ← part cfg.debug
  ok (fill_in (value_at format_floats c l d) places)

-- What is written to the path, where `write` is what `ioutil.WriteFile` gives.
unfoldable pub write_config_file :
    (Float64 → Bytes) → (Bytes → Result (Unit {0})) → Bytes → Config → Result Bytes
unfolding execute_template
write_config_file format_floats write path config = do
  content ← execute_template format_floats config
  write path
  ok content
