-- ===== src/Http.antt =====
-- The enumerations and texts of src/CommonUtil.h and src/CommonUtil.cc that the HTTP classes share.
pub mod Request
pub mod Context
pub mod Response
pub mod Server
mod Tests
use reactor_server.Prelude.Bytes.{Bytes, codes}

-- `enum HttpCode`, with its member `_REQUEST`.
pub data HttpCode : Type 0 where
  no_request get_request bad_request no_resource forbidden_request underscore_request : HttpCode
  file_request internal_error closed_connection : HttpCode

-- `enum CheckState`.
pub data CheckState : Type 0 where
  check_state_requestline check_state_header check_state_content : CheckState

-- `enum LineStatus`.
pub data LineStatus : Type 0 where
  line_ok line_bad line_open : LineStatus

abbrev pub ok_200_title : Bytes
ok_200_title = codes "OK"

abbrev pub error_400_title : Bytes
error_400_title = codes "Bad Request"

abbrev pub error_400_form : Bytes
error_400_form = codes "Your request has bad syntax or is inherently impossible to satisfy.\n"

abbrev pub error_403_title : Bytes
error_403_title = codes "Forbidden"

abbrev pub error_403_form : Bytes
error_403_form = codes "You do not have permission to get file from this server.\n"

abbrev pub error_404_title : Bytes
error_404_title = codes "Not Found"

abbrev pub error_404_form : Bytes
error_404_form = codes "The request file was not found on this server.\n"

abbrev pub error_500_title : Bytes
error_500_title = codes "Internal Error"

abbrev pub error_500_form : Bytes
error_500_form = codes "There was an unusual problem serving the request file.\n"
