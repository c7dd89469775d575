-- ===== src/Origin/Tests.antt =====
-- Files of a few bytes, with a compression that changes nothing.
use filth.Base.Text.{Bytes}
use filth.Base.{true, Option, some}
use filth.Http.Constants.{ok_status}
use filth.Int.{pos}
use filth.Origin.Request.{Rest}

abbrev as_it_is : Bytes → Option Bytes
as_it_is x = some x

abbrev at_ten : Rest
at_ten = record {
  req_t = pos 10;
  now = pos 10;
  new_ok = true;
  compress = as_it_is;
  unset = ok_status;
}
