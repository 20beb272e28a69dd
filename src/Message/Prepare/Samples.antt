-- ===== src/Message/Prepare/Samples.antt =====
-- A submission and what Prepare makes of it, for the tests.
use outboxd.Common.{Bytes, codes, str_eq, some, List, [], ◌∷◌, ◌++◌, true, false}
use outboxd.Common.Strings.{to_lower_ascii}
use outboxd.Mailbox.AsciiNames.{ascii_names}
use outboxd.Message.Normalize.{crlf}
use outboxd.Message.Prepare.{Library, Options, Message}

abbrev pub library : Library
library = record {
  parse_address = λ value. some value;
  parses_date = λ value. true;
  equal_fold = str_eq;
  to_lower = to_lower_ascii;
  to_ascii = ascii_names;
  message_id = λ host. codes "<1@" ++ (host ++ codes ">");
  now = codes "now";
}

abbrev pub options : Options
options = record {
  hostname = codes "mx.a.org";
  helo = codes "pc(1)";
  remote = [];
  tls = [];
  max_bytes = 0;
}

abbrev pub join_lines : List Bytes → Bytes
join_lines [] = []
join_lines (l ∷ ls) = l ++ (crlf ++ join_lines ls)

abbrev pub submission : Bytes
submission =
    join_lines
      (codes "From: Al@a.org" ∷ codes "Bcc: b@b.org" ∷ codes "Date: d" ∷ [] ∷ codes "hi" ∷ [])

abbrev pub prepared_text : Bytes
prepared_text = join_lines (
    codes "Received: from pc1"
    ∷ (9 ∷ codes "by mx.a.org with ESMTPA id 1@a.org;")
    ∷ (9 ∷ codes "now")
    ∷ codes "Message-ID: <1@a.org>"
    ∷ codes "To: undisclosed-recipients:;"
    ∷ codes "From: Al@a.org"
    ∷ codes "Date: d"
    ∷ []
    ∷ codes "hi"
    ∷ [])

abbrev pub prepared : Message
prepared = record {
  text = prepared_text;
  from = codes "Al@a.org";
  sender = [];
  id = codes "<1@a.org>";
  needs_utf8 = false;
  eight_bit = false;
}
