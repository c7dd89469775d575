-- ===== src/Http/Constants.antt =====
-- The enumerations of src/HTTP_constants.hpp, which data/*.def fills in, and their names and codes in
-- src/HTTP_constants.cpp. `…_name` is the row of the array of strings.
use filth.Base.Text.{Bytes, codes}
use filth.Base.{ℕ, List, [], ◌∷◌}

pub data Status : Type 0 where
  continue_status switching_protocols ok_status created accepted non_authoritative_information :
      Status
  no_content reset_content partial_content multiple_choices moved_permanently found see_other :
      Status
  not_modified use_proxy temporary_redirect bad_request unauthorized payment_required forbidden :
      Status
  not_found method_not_allowed not_acceptable proxy_authentication_required request_time_out :
      Status
  conflict gone length_required precondition_failed request_entity_too_large : Status
  request_uri_too_long unsupported_media_type requested_range_not_satisfiable : Status
  expectation_failed internal_server_error not_implemented bad_gateway service_unavailable : Status
  gateway_timeout http_version_not_supported : Status

pub data Method : Type 0 where
  connect delete get head options post put trace : Method

pub data Header : Type 0 where
  accept accept_charset accept_encoding accept_language accept_ranges age allow authorization :
      Header
  cache_control connection content_encoding content_language content_length content_location :
      Header
  content_md5 content_range content_type date etag expect expires from host if_match : Header
  if_modified_since if_none_match if_range if_unmodified_since last_modified location : Header
  max_forwards pragma proxy_authenticate proxy_authorization range referer retry_after server :
      Header
  te trailer transfer_encoding upgrade user_agent vary via warning www_authenticate : Header

pub data ContentCoding : Type 0 where
  compress deflate gzip identity : ContentCoding

-- `status_vals`
unfoldable pub status_val : Status → ℕ
status_val continue_status = 100
status_val switching_protocols = 101
status_val ok_status = 200
status_val created = 201
status_val accepted = 202
status_val non_authoritative_information = 203
status_val no_content = 204
status_val reset_content = 205
status_val partial_content = 206
status_val multiple_choices = 300
status_val moved_permanently = 301
status_val found = 302
status_val see_other = 303
status_val not_modified = 304
status_val use_proxy = 305
status_val temporary_redirect = 307
status_val bad_request = 400
status_val unauthorized = 401
status_val payment_required = 402
status_val forbidden = 403
status_val not_found = 404
status_val method_not_allowed = 405
status_val not_acceptable = 406
status_val proxy_authentication_required = 407
status_val request_time_out = 408
status_val conflict = 409
status_val gone = 410
status_val length_required = 411
status_val precondition_failed = 412
status_val request_entity_too_large = 413
status_val request_uri_too_long = 414
status_val unsupported_media_type = 415
status_val requested_range_not_satisfiable = 416
status_val expectation_failed = 417
status_val internal_server_error = 500
status_val not_implemented = 501
status_val bad_gateway = 502
status_val service_unavailable = 503
status_val gateway_timeout = 504
status_val http_version_not_supported = 505

-- `status_strs`
unfoldable pub status_name : Status → Bytes
status_name continue_status = codes "Continue"
status_name switching_protocols = codes "Switching_Protocols"
status_name ok_status = codes "OK"
status_name created = codes "Created"
status_name accepted = codes "Accepted"
status_name non_authoritative_information = codes "Non_Authoritative_Information"
status_name no_content = codes "No_Content"
status_name reset_content = codes "Reset_Content"
status_name partial_content = codes "Partial_Content"
status_name multiple_choices = codes "Multiple_Choices"
status_name moved_permanently = codes "Moved_Permanently"
status_name found = codes "Found"
status_name see_other = codes "See_Other"
status_name not_modified = codes "Not_Modified"
status_name use_proxy = codes "Use_Proxy"
status_name temporary_redirect = codes "Temporary_Redirect"
status_name bad_request = codes "Bad_Request"
status_name unauthorized = codes "Unauthorized"
status_name payment_required = codes "Payment_Required"
status_name forbidden = codes "Forbidden"
status_name not_found = codes "Not_Found"
status_name method_not_allowed = codes "Method_Not_Allowed"
status_name not_acceptable = codes "Not_Acceptable"
status_name proxy_authentication_required = codes "Proxy_Authentication_Required"
status_name request_time_out = codes "Request_Time_Out"
status_name conflict = codes "Conflict"
status_name gone = codes "Gone"
status_name length_required = codes "Length_Required"
status_name precondition_failed = codes "Precondition_Failed"
status_name request_entity_too_large = codes "Request_Entity_Too_Large"
status_name request_uri_too_long = codes "Request_URI_Too_Long"
status_name unsupported_media_type = codes "Unsupported_Media_Type"
status_name requested_range_not_satisfiable = codes "Requested_Range_Not_Satisfiable"
status_name expectation_failed = codes "Expectation_Failed"
status_name internal_server_error = codes "Internal_Server_Error"
status_name not_implemented = codes "Not_Implemented"
status_name bad_gateway = codes "Bad_Gateway"
status_name service_unavailable = codes "Service_Unavailable"
status_name gateway_timeout = codes "Gateway_Timeout"
status_name http_version_not_supported = codes "HTTP_Version_Not_Supported"

-- `method_strs`
unfoldable pub method_name : Method → Bytes
method_name connect = codes "CONNECT"
method_name delete = codes "DELETE"
method_name get = codes "GET"
method_name head = codes "HEAD"
method_name options = codes "OPTIONS"
method_name post = codes "POST"
method_name put = codes "PUT"
method_name trace = codes "TRACE"

-- `header_strs`
unfoldable pub header_name : Header → Bytes
header_name accept = codes "Accept"
header_name accept_charset = codes "Accept_Charset"
header_name accept_encoding = codes "Accept_Encoding"
header_name accept_language = codes "Accept_Language"
header_name accept_ranges = codes "Accept_Ranges"
header_name age = codes "Age"
header_name allow = codes "Allow"
header_name authorization = codes "Authorization"
header_name cache_control = codes "Cache_Control"
header_name connection = codes "Connection"
header_name content_encoding = codes "Content_Encoding"
header_name content_language = codes "Content_Language"
header_name content_length = codes "Content_Length"
header_name content_location = codes "Content_Location"
header_name content_md5 = codes "Content_MD5"
header_name content_range = codes "Content_Range"
header_name content_type = codes "Content_Type"
header_name date = codes "Date"
header_name etag = codes "ETag"
header_name expect = codes "Expect"
header_name expires = codes "Expires"
header_name from = codes "From"
header_name host = codes "Host"
header_name if_match = codes "If_Match"
header_name if_modified_since = codes "If_Modified_Since"
header_name if_none_match = codes "If_None_Match"
header_name if_range = codes "If_Range"
header_name if_unmodified_since = codes "If_Unmodified_Since"
header_name last_modified = codes "Last_Modified"
header_name location = codes "Location"
header_name max_forwards = codes "Max_Forwards"
header_name pragma = codes "Pragma"
header_name proxy_authenticate = codes "Proxy_Authenticate"
header_name proxy_authorization = codes "Proxy_Authorization"
header_name range = codes "Range"
header_name referer = codes "Referer"
header_name retry_after = codes "Retry_After"
header_name server = codes "Server"
header_name te = codes "TE"
header_name trailer = codes "Trailer"
header_name transfer_encoding = codes "Transfer_Encoding"
header_name upgrade = codes "Upgrade"
header_name user_agent = codes "User_Agent"
header_name vary = codes "Vary"
header_name via = codes "Via"
header_name warning = codes "Warning"
header_name www_authenticate = codes "WWW_Authenticate"

-- `content_coding_strs`
unfoldable pub content_coding_name : ContentCoding → Bytes
content_coding_name compress = codes "compress"
content_coding_name deflate = codes "deflate"
content_coding_name gzip = codes "gzip"
content_coding_name identity = codes "identity"

-- in the order of the enumeration
abbrev pub methods : List Method
methods = connect ∷ delete ∷ get ∷ head ∷ options ∷ post ∷ put ∷ trace ∷ []

-- in the order of the enumeration
abbrev pub headers : List Header
headers =
    accept ∷ accept_charset ∷ accept_encoding ∷ accept_language ∷ accept_ranges ∷ age ∷ allow
    ∷ authorization ∷ cache_control ∷ connection ∷ content_encoding ∷ content_language
    ∷ content_length ∷ content_location ∷ content_md5 ∷ content_range ∷ content_type ∷ date ∷ etag
    ∷ expect ∷ expires ∷ from ∷ host ∷ if_match ∷ if_modified_since ∷ if_none_match ∷ if_range
    ∷ if_unmodified_since ∷ last_modified ∷ location ∷ max_forwards ∷ pragma ∷ proxy_authenticate
    ∷ proxy_authorization ∷ range ∷ referer ∷ retry_after ∷ server ∷ te ∷ trailer
    ∷ transfer_encoding ∷ upgrade ∷ user_agent ∷ vary ∷ via ∷ warning ∷ www_authenticate ∷ []
