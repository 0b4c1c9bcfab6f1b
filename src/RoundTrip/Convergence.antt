-- ===== src/RoundTrip/Convergence.antt =====
-- When the reconciler stops to update the OAuth configuration that it has written.
use wso2is_operator.Api.Sp
use wso2is_operator.Wso2.Json.{Json}
