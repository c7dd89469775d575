-- ===== src/Http/Conn/State.antt =====
-- The members of HTTP_Work, and the parts that servers and clients share: what is read of a message, and
-- the headers and the body that go out.
use filth.Base.Text.{Bytes, split_at}
use filth.Base.{
  ℕ, ◌-◌, Bool, true, false, not, ◌&&◌, Option, none, some, [], ◌++◌, length, take, drop, ltb, leb,
  ◌==◌, if◌then◌else◌,
}
use filth.Base.Words.{sub64}
use filth.Http.Constants.{content_length}
use filth.Http.Lines.{Hdrs, field, line_at}
use filth.Sched.Poll.{Mode}
use filth.Work.Read.{c_string}

-- `inbuf` is the text that is not read yet, `out` what is left to be sent of the headers or the body.
pub record Conn : Type 0 where
  pub m : Mode
  pub inhdrs_done : Bool
  pub outhdrs_done : Bool
  pub inbuf : Bytes
  pub inhdrs : Hdrs
  pub inbody : Bytes
  pub inbody_sz : ℕ
  pub out : Bytes
  pub outsz : ℕ
  pub outbody : Bytes
  pub outbody_sz : ℕ

-- the constructor of HTTP_Work
abbrev pub new_conn : Mode → Conn
new_conn m = record {
  m = m;
  inhdrs_done = false;
  outhdrs_done = false;
  inbuf = [];
  inhdrs = [];
  inbody = [];
  inbody_sz = 0;
  out = [];
  outsz = 0;
  outbody = [];
  outbody_sz = 0;
}

-- the size of `cbuf`
abbrev pub cbufsz : ℕ
cbufsz = 4096

-- EAGAIN, which is EWOULDBLOCK
abbrev pub eagain : ℕ
eagain = 11

-- `err != 0 && err != EAGAIN && err != EWOULDBLOCK`
unfoldable pub failed_read : ℕ → Bool
failed_read err = not (err == 0) && not (err == eagain)

-- `outbuf.get(cbuf, cbufsz, '\0')`: what fits of the headers, up to a 0 byte
unfoldable pub fits_cbuf : Bytes → Bytes
fits_cbuf x = take (cbufsz - 1) (c_string x)

-- `out = outhdrs = cbuf` and the sizes
unfoldable pub set_output : Bytes → Bytes → Conn → Conn
set_output hdrs body c = record c {
  out = fits_cbuf hdrs;
  outsz = length (fits_cbuf hdrs);
  outbody = body;
  outbody_sz = length body;
}

-- the headers are sent: the body is next
abbrev pub body_next : Conn → Conn
body_next c = record c { outhdrs_done = true; out = c.outbody; outsz = c.outbody_sz }

-- the number in the Content-Length header; without the header the old one stays. Numbers are read by
-- the library.
unfoldable pub announced_size : (Bytes → ℕ → ℕ) → Conn → ℕ
announced_size scan_size c = elim (split_at b':' (line_at (field content_length) c.inhdrs)) [
  | none ↦ c.inbody_sz
  | some p ↦ scan_size p.1 c.inbody_sz
]

-- `inbuf.read(cbuf, inbody_sz)`: how much of the body has come in with the headers
unfoldable pub body_in_buffer : Conn → ℕ
body_in_buffer c = if ltb (length c.inbuf) c.inbody_sz then length c.inbuf else c.inbody_sz

-- `n` bytes go from the text to the body
abbrev pub move_body : ℕ → Conn → Conn
move_body n c = record c {
  inbody = c.inbody ++ c_string (take n c.inbuf);
  inbuf = drop n c.inbuf;
  inbody_sz = sub64 c.inbody_sz n;
}

-- the part of the body that has come in with the headers; `none` means that it does not fit `cbuf` with
-- its 0 byte, where the code writes behind the buffer
unfoldable pub take_body : Conn → Option Conn
take_body c = if leb cbufsz (body_in_buffer c) then none else some (move_body (body_in_buffer c) c)
