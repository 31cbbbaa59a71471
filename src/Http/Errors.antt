-- ===== src/Http/Errors.antt =====
-- http/errors.go: the errors of the package.
use magic_engine.Common.{◌++◌, Bytes, codes}
use magic_engine.NetHttp.{Error}

abbrev pub err_url_not_found : Error
err_url_not_found = codes "the requested url was not found on this server"

abbrev pub err_method_not_allowed : Error
err_method_not_allowed = codes "no matching http method found"

abbrev pub err_static_file_not_found : Error
err_static_file_not_found = codes "static file not found"

abbrev pub err_invalid_proxy_target : Error
err_invalid_proxy_target = codes "illegal proxy target URL"

abbrev pub err_empty_file_path : Error
err_empty_file_path = codes "empty file path"

-- StaticError
pub record StaticError : Type 0 where
  pub path : Bytes
  pub cause : Error

-- NewStaticError
unfoldable pub new_static_error : Bytes → Error → StaticError
new_static_error path cause = record { path = path; cause = cause }

-- StaticError.Error
unfoldable pub static_error_text : StaticError → Bytes
static_error_text e = codes "static file error: " ++ e.path ++ codes ": " ++ e.cause

-- StaticError.Unwrap
unfoldable pub unwrap : StaticError → Error
unwrap e = e.cause
