-- ===== src/DataSource.antt =====
-- internal/datasource/helpers.go, and what the streaming and the polling data source use of
-- subsystems/data_source.go and of interfaces/data_source_status_provider.go.
pub mod Fdv2
pub mod Fdv2Polling
pub mod Polling
pub mod PollingRuns
pub mod Streaming
pub mod StreamingRuns
pub mod Transfers
use go_server_sdk.Prelude.{
  ℕ, String, ltb, leb, Bool, true, false, not, ◌&&◌, ◌||◌, Option, none, some, List, ◌==◌, nat_eq,
  if◌then◌else◌, ◌++◌,
}
use go_server_sdk.Types.{DataKind, ItemDescriptor, Collection}
use go_server_sdk.UpdateSink.Status.{DataSourceState, DataSourceErrorInfo}

abbrev pub unknown : String
unknown = "UNKNOWN"

abbrev pub network_error : String
network_error = "NETWORK_ERROR"

abbrev pub error_response : String
error_response = "ERROR_RESPONSE"

abbrev pub invalid_data : String
invalid_data = "INVALID_DATA"

-- The DataSourceUpdateSink interface over a world `W`, which stands for the store and for the status.
pub record DataSourceUpdateSink (A W : Type 0) : Type 0 where
  pub init : List (Collection A) → W → Bool × W
  pub upsert : DataKind → String → ItemDescriptor A → W → Bool × W
  pub update_status : DataSourceState → DataSourceErrorInfo → W → W

-- A status code is a natural number: no response has a negative one.
unfoldable pub is_http_error_recoverable : ℕ → Bool
is_http_error_recoverable status_code =
    if leb 400 status_code && ltb status_code 500
    then status_code == 400 || status_code == 408 || status_code == 429
    else true

-- The result; the text that is logged is left out.
unfoldable pub check_if_error_is_recoverable_and_log : ℕ → Bool
unfolding is_http_error_recoverable
check_if_error_is_recoverable_and_log status_code =
    not (ltb 0 status_code && not (is_http_error_recoverable status_code))
