-- ===== src/Relay/Fatal.antt =====
-- internal/relay/fatal.go: which completed error exchanges prove an upstream broken. The members of
-- the JSON envelope are read in lower case by the decoder.
use breakwater.Base.{ℕ, ◌&&◌, ◌||◌, Option, none, some, String, ◌==◌, str_eq, if◌then◌else◌}
use breakwater.Relay.Request.{Body}

abbrev pub reason_auth_failure : String
reason_auth_failure = "upstream_auth_failure"

abbrev pub reason_quota_exhausted : String
reason_quota_exhausted = "upstream_quota_exhausted"

-- `fatalUpstreamReason`; `none` is the empty reason.
unfoldable pub fatal_upstream_reason : ℕ → Body → Option String
fatal_upstream_reason status b =
    if str_eq b.error_type "insufficient_quota" || str_eq b.error_code "insufficient_quota"
    then some reason_quota_exhausted
    else (if status == 401
        then some reason_auth_failure
        else (if status == 403
              && (str_eq b.error_type "authentication_error"
                  || str_eq b.error_code "invalid_api_key")
            then some reason_auth_failure
            else none))
