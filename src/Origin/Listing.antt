-- ===== src/Origin/Listing.antt =====
-- `dirtoHTML` of src/HTTP_Origin_Server.cpp: the page for a directory. What `readdir_r` answers is a list
-- of names and the result of its last call; zlib is a parameter.
use filth.Base.Text.{Bytes, codes}
use filth.Base.{
  ℕ, ◌≡◌, ap, ◌∙◌, Bool, true, false, not, Option, none, some, List, [], ◌∷◌, ◌++◌, length, ◌==◌,
  if◌then◌else◌, if_false,
}
use filth.Http.Constants.{gzip}
use filth.Http.Entry.{CacheEntry, new_entry}
use filth.Origin.Put.{enomem}
use filth.Origin.Request.{Rest}
use filth.Work.Read.{c_string, no_null, c_string-no_null}

-- how far `dirtoHTML` gets: `opendir` fails, `malloc` fails, or the names and the last result
pub data Directory : Type 0 where
  no_open : ℕ → Directory
  no_memory : Directory
  names : List Bytes → ℕ → Directory

-- the result, `result`, and whether the directory has been left open
pub record Listed : Type 0 where
  pub err : ℕ
  pub result : Option CacheEntry
  pub left_open : Bool

-- one paragraph
abbrev pub link : Bytes → Bytes → Bytes
link path name =
    codes "<p><a href=\"/"
    ++ (path ++ (codes "/" ++ (name ++ (codes "\">" ++ (name ++ codes "</a></p>")))))

unfoldable pub links : Bytes → List Bytes → Bytes
links path [] = []
links path (name ∷ rest) = link path name ++ links path rest

unfoldable pub page : Bytes → List Bytes → Bytes
page path entries =
    codes "<html><head></head><body>" ++ (links path entries ++ codes "</body></html>")

-- the entry for a page; `old` is what `result` points to before
unfoldable pub page_entry : Rest → Option CacheEntry → Bytes → Listed
page_entry s old src =
    if not s.new_ok
    then record { err = enomem; result = old; left_open = false }
    else elim (s.compress src) [
      | none ↦ record { err = enomem; result = none; left_open = false }
      | some x ↦ record {
        err = 0;
        result = some (new_entry (length src) (length x) s.now s.now s.now x gzip s.unset);
        left_open = false;
      }
    ]

unfoldable pub dirto_html : Rest → Option CacheEntry → Bytes → Directory → Listed
dirto_html s old path (no_open errno) = record { err = errno; result = none; left_open = false }
dirto_html s old path no_memory = record { err = enomem; result = none; left_open = true }
dirto_html s old path (names entries ans) =
    if not (ans == 0)
    then record { err = ans; result = none; left_open = false }
    else page_entry s old (c_string (page path entries))

page_made :
    (s : Rest) (old : Option CacheEntry) (src x : Bytes)
    → s.new_ok ≡ true
    → s.compress src ≡ some x
    → page_entry s old src ≡ record {
      err = 0;
      result = some (new_entry (length src) (length x) s.now s.now s.now x gzip s.unset);
      left_open = false;
    }
unfolding page_entry
page_made s old src x memory made_of =
    if_false _ _ (ap not memory)
    ∙ ap
        (λ (o : Option Bytes). elim o as (λ _. Listed) [
          | none ↦ record { err = enomem; result = none; left_open = false }
          | some y ↦ record {
            err = 0;
            result = some (new_entry (length src) (length y) s.now s.now s.now y gzip s.unset);
            left_open = false;
          }
        ])
        made_of

-- A directory that is read to its end becomes an entry of the compressed page, with a link for each of
-- the names, in the order in which they were read.
pub dirto_html_lem :
    (s : Rest) (old : Option CacheEntry) (path : Bytes) (entries : List Bytes) (x : Bytes)
    → no_null (page path entries) ≡ true
    → s.new_ok ≡ true
    → s.compress (page path entries) ≡ some x
    → dirto_html s old path (names entries 0) ≡ record {
      err = 0;
      result =
          some (new_entry (length (page path entries)) (length x) s.now s.now s.now x gzip s.unset);
      left_open = false;
    }
unfolding dirto_html
dirto_html_lem s old path entries x text memory made_of =
    ap (page_entry s old) (c_string-no_null (page path entries) text)
    ∙ page_made s old (page path entries) x memory made_of
