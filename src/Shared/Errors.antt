-- ===== src/Shared/Errors.antt =====
-- shared/errors/exceptions.py: the exceptions that the services raise, with the HTTP status and
-- the code that each class passes to `RTFADSError.__init__`. Messages are not modelled.
use rt_financial_anomaly_det.Prelude.{ℕ, String}
use rt_financial_anomaly_det.Shared.Enums.{AlertStatus}

-- `redis_error` is the client's, `database_error` and `multiple_results_found` are SQLAlchemy's; `key_error`, `value_error` and `attribute_error`
-- Python's. The arguments are the details that an error carries.
pub data Error : Type 0 where
  resource_not_found : String → ℕ → Error
  conflict : Error
  invalid_state_transition : AlertStatus → AlertStatus → ℕ → Error
  validation : Error
  authentication authorization rate_limit_exceeded : Error
  infrastructure_unavailable : String → Error
  database_error redis_error multiple_results_found key_error value_error attribute_error : Error

-- `self.status_code`, and the default of `RTFADSError` for what is no such error
unfoldable pub status_code : Error → ℕ
status_code (resource_not_found kind id) = 404
status_code conflict = 409
status_code (invalid_state_transition current target id) = 409
status_code validation = 422
status_code authentication = 401
status_code authorization = 403
status_code rate_limit_exceeded = 429
status_code (infrastructure_unavailable service) = 503
status_code _ = 500

-- `self.code`; `InvalidStateTransitionError` overwrites the code of `ConflictError`
unfoldable pub error_code : Error → String
error_code (resource_not_found kind id) = "NOT_FOUND"
error_code conflict = "CONFLICT"
error_code (invalid_state_transition current target id) = "INVALID_STATE_TRANSITION"
error_code validation = "VALIDATION_ERROR"
error_code authentication = "UNAUTHORIZED"
error_code authorization = "FORBIDDEN"
error_code rate_limit_exceeded = "RATE_LIMIT_EXCEEDED"
error_code (infrastructure_unavailable service) = "SERVICE_UNAVAILABLE"
error_code _ = "INTERNAL_ERROR"
