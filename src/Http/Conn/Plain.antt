-- ===== src/Http/Conn/Plain.antt =====
-- HTTP_Server_Work (src/HTTP_Server_Work.cpp) by itself, without a derived class: its constructor, the
-- limits, and the default `prepare_response` and `on_oops`. Their state is `stat`.
use filth.Base.Text.{Bytes}
use filth.Base.{ℕ, false, Option, some, [], ◌∷◌, ◌++◌}
use filth.Http.Conn.Server.{Derived, Reply, responds, Setup}
use filth.Http.Conn.State.{Conn, new_conn}
use filth.Http.Constants.{Status, content_length, server}
use filth.Http.Lines.{Hdrs, crlf}
use filth.Http.Output.{print_header, print_status}
use filth.Http.Request.Line.{http_version}
use filth.Sched.Poll.{read}

-- the constructor of HTTP_Server_Work
unfoldable pub new_server : Conn
new_server = new_conn read

-- `setmaxes`, as far as `operator()` reads it
unfoldable pub setmaxes : ℕ → Setup → Setup
setmaxes max_req_body setup = record setup { max_req_body = max_req_body }

module _ (decimal : ℕ → Bytes) (package_name : Bytes) where
  -- the status line and the name of the server
  unfoldable pub status_headers : Status → Bytes
  status_headers s =
      http_version
      ++ (32
          ∷ (print_status decimal s ++ (crlf ++ (print_header server ++ (package_name ++ crlf)))))

  -- the default `prepare_response`: an empty response
  unfoldable pub prepare_response : Hdrs → Bytes → Status → Option (Status × Reply)
  prepare_response reqhdrs reqbody s = some (
    s,
    responds (status_headers s ++ (print_header content_length ++ (decimal 0 ++ (crlf ++ crlf))))
        [],
  )

  -- the class as it is; `on_oops` also leaves the status in `stat`
  unfoldable pub plain_server : Derived Status
  plain_server = record {
    prepare = prepare_response;
    on_oops = λ s old. (s, status_headers s);
    reset_more = λ s. s;
    nosch = λ s. false;
    deleteme = λ s. false;
  }
