-- ===== src/Errors.antt =====
-- Errors and results: src/util/errors.hpp.
use Prim.Native.String.{String, ◌++◌}
use kernel_scope.Prelude.{Bool, true, false}

pub data ErrorCode : Type 0 where
  no_error bpf_load_failed bpf_attach_failed bpf_map_error kernel_too_old no_btf : ErrorCode
  permission_denied invalid_argument io_error symbolization_failed record_format_error : ErrorCode
  config_error unsupported internal : ErrorCode

pub record Error : Type 0 where
  pub code : ErrorCode
  pub message : String

-- std::expected<void, Error>.
pub data Status : Type 0 where
  ok : Status
  err : Error → Status

unfoldable pub make_error : ErrorCode → String → Error
make_error code message = record { code = code; message = message }

-- The last argument is the text of strerror(errno).
unfoldable pub errno_error : ErrorCode → String → String → Error
errno_error code prefix reason = record { code = code; message = prefix ++ (": " ++ reason) }

-- `explicit operator bool`.
unfoldable pub is_error : Error → Bool
is_error e = elim e.code [ ErrorCode.no_error ↦ false | _ ↦ true ]
