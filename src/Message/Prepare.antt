-- ===== src/Message/Prepare.antt =====
-- PrepareContext of internal/message/message.go, for a context that is not canceled. The grammars of
-- net/mail, the tables of Unicode and the clock and random numbers behind an identifier and a date are
-- parameters.
pub mod Kept
pub mod Remains
pub mod Samples
mod Tests
use outboxd.Common.{
  ℕ, zero, suc, ◌+◌, Bool, true, false, not, ◌&&◌, ◌||◌, Bytes, codes, str_eq, Option, none, some,
  List, [], ◌∷◌, ◌++◌, length, ltb, leb, ◌==◌, ◌^◌, if◌then◌else◌,
}
use outboxd.Common.Result.{Result, ok, err, ◌>>=◌, ◌>>◌, reject_if}
use outboxd.Common.Strings.{any, is_empty, has_prefix, last_index_byte, take, drop}
use outboxd.Common.Utf8.{valid_utf8, has_high_bit, trim_space}
use outboxd.Mailbox.{MailboxError, validate_address}
use outboxd.Message.Fields.{Field, scan, text, first_field, valid_message_id}
use outboxd.Message.Normalize.{
  MessageError, oversized, empty, header_size, no_from, many_from, resent, normalize, split, crlf,
}
use outboxd.Message.Trace.{trace_value, protocol, trim_angles}

abbrev pub max_header_bytes : ℕ
max_header_bytes = 2 ^ 20

pub record Options : Type 0 where
  pub hostname : Bytes
  pub helo : Bytes
  pub remote : Bytes
  pub tls : Bytes
  pub max_bytes : ℕ

pub record Message : Type 0 where
  pub text : Bytes
  pub from : Bytes
  pub sender : Bytes
  pub id : Bytes
  pub needs_utf8 : Bool
  pub eight_bit : Bool

-- `scan_unfinished` would be the end of scan's fuel.
pub data PrepareError : Type 0 where
  message : MessageError → PrepareError
  header_not_utf8 many_senders scan_unfinished : PrepareError
  invalid_originator : Bytes → PrepareError

pub record Library : Type 0 where
  -- mail.AddressParser.Parse: the address.
  pub parse_address : Bytes → Option Bytes
  -- mail.ParseDate returns no error.
  pub parses_date : Bytes → Bool
  pub equal_fold : Bytes → Bytes → Bool
  pub to_lower : Bytes → Bytes
  pub to_ascii : Bytes → Option Bytes
  -- messageID for a host name.
  pub message_id : Bytes → Bytes
  -- time.Now in the format RFC1123Z.
  pub now : Bytes

abbrev pub lift {ℓ} : {A : Type ℓ} → Result MessageError A → Result PrepareError A
lift (ok a) = ok a
lift (err e) = err (message e)

-- A message of this many bytes is not read further.
unfoldable pub check_size : ℕ → Bytes → Result PrepareError (Unit {0})
check_size max_bytes raw = do
  reject_if (not (max_bytes == 0) && ltb max_bytes (length raw)) (message oversized)
  reject_if (is_empty raw) (message empty)

unfoldable pub read_fields : Bytes → Result PrepareError (List Field)
read_fields header = elim (scan header) [ none ↦ err scan_unfinished | some r ↦ lift r ]

unfoldable pub count_named : Bytes → List Field → ℕ
count_named name [] = 0
count_named name (f ∷ fs) = (if str_eq f.name name then 1 else 0) + count_named name fs

abbrev pub is_present : Bytes → List Field → Bool
is_present name fields = ltb 0 (count_named name fields)

abbrev pub is_some {ℓ} : {A : Type ℓ} → Option A → Bool
is_some none = false
is_some (some _) = true

abbrev pub is_present_field : List Field → Bytes → Bool
is_present_field fields name = is_some (first_field fields name)

unfoldable pub check_from : List Field → Result PrepareError (Unit {0})
check_from fields = do
  reject_if (count_named (codes "from") fields == 0) (message no_from)
  reject_if (not (count_named (codes "from") fields == 1)) (message many_from)

abbrev pub after : Option ℕ → Bytes → Bytes
after none s = s
after (some at) s = drop (at + 1) s

-- The text between the last '<' and the last '>', where these are in order.
unfoldable pub addr_spec : Bytes → Bytes
addr_spec header_text = elim (last_index_byte header_text b'<') [
  | none ↦ header_text
  | some i ↦ elim (last_index_byte header_text b'>') [
    | none ↦ header_text
    | some j ↦ if ltb i j then take j header_text else header_text
  ]
]

-- How much of it stands before the address.
unfoldable pub addr_start : Bytes → ℕ
addr_start header_text = elim (last_index_byte header_text b'<') [
  | none ↦ 0
  | some i ↦ elim (last_index_byte header_text b'>') [
    | none ↦ 0
    | some j ↦ if ltb i j then i + 1 else 0
  ]
]

-- The variables of the loop over the fields.
pub record Originators : Type 0 where
  pub from : Bytes
  pub sender : Bytes
  pub needs_utf8 : Bool

abbrev pub canonical_header : Bytes → Bytes
canonical_header name = if str_eq name (codes "sender") then codes "Sender" else codes "From"

abbrev pub or_invalid {ℓ} : {E : Type 0} {A : Type ℓ} → Bytes → Result E A → Result PrepareError A
or_invalid name (ok a) = ok a
or_invalid name (err _) = err (invalid_originator (canonical_header name))

abbrev pub parsed_or_invalid : Bytes → Option Bytes → Result PrepareError Bytes
parsed_or_invalid name (some a) = ok a
parsed_or_invalid name none = err (invalid_originator (canonical_header name))

abbrev pub is_originator : Bytes → Bool
is_originator name = str_eq name (codes "from") || str_eq name (codes "sender")

unfoldable pub needs_utf8_addr : Bytes → Bool
needs_utf8_addr addr = has_high_bit addr || not (valid_utf8 addr)

unfoldable pub set_originator : Field → Bytes → Originators → Result PrepareError Originators
set_originator f originator o =
    let needs = o.needs_utf8 || needs_utf8_addr originator in
    if str_eq f.name (codes "from")
    then ok (record o { from = originator; needs_utf8 = needs })
    else if not (is_empty o.sender)
    then err many_senders
    else ok (record o { sender = originator; needs_utf8 = needs })

module _ (lib : Library) where
  unfoldable pub preserve_local_part_case : Bytes → Bytes → Bytes
  preserve_local_part_case header_text parsed =
      let raw = trim_space (drop (addr_start header_text) (addr_spec header_text)) in
      elim (last_index_byte parsed b'@') [
        | none ↦ parsed
        | some at ↦ elim (last_index_byte raw b'@') [
          | none ↦ parsed
          | some rat ↦
              if not (lib.equal_fold raw parsed)
                && not (lib.equal_fold (drop (rat + 1) raw) (drop (at + 1) parsed))
              then parsed
              else take rat raw ++ (b'@' ∷ lib.to_lower (drop (rat + 1) raw))
        ]
      ]

  unfoldable pub valid_date : Field → Bool
  valid_date f = let value = trim_space (text f) in not (is_empty value) && lib.parses_date value

  unfoldable pub read_originator : Field → Originators → Result PrepareError Originators
  read_originator f o = do
    parsed ← parsed_or_invalid f.name (lib.parse_address (text f))
    or_invalid f.name (validate_address lib.to_ascii (preserve_local_part_case (text f) parsed))
    set_originator f (preserve_local_part_case (text f) parsed) o

  -- One round of the loop over the fields.
  unfoldable pub visit : Field → Originators → Result PrepareError Originators
  visit f o = do
    reject_if (has_prefix f.name (codes "resent-")) (message resent)
    reject_if (has_high_bit f.value && not (valid_utf8 f.value)) header_not_utf8
    let seen : Originators = record o { needs_utf8 = o.needs_utf8 || has_high_bit f.value }
    if is_originator f.name then read_originator f seen else ok seen

  unfoldable pub visit_all : List Field → Originators → Result PrepareError Originators
  visit_all [] o = ok o
  visit_all (f ∷ fs) o = do o' ← visit f o; visit_all fs o'

  unfoldable pub usable : (Field → Bool) → Option Field → Bool
  usable p none = false
  usable p (some f) = p f

  unfoldable pub has_date : List Field → Bool
  has_date fields = usable valid_date (first_field fields (codes "date"))

  unfoldable pub has_id : List Field → Bool
  has_id fields = usable (λ f. valid_message_id (text f)) (first_field fields (codes "message-id"))

  unfoldable pub identifier_domain : Bytes → Bytes → Bytes
  identifier_domain hostname from = elim (last_index_byte from b'@') [
    | none ↦ hostname
    | some at ↦ if ltb (at + 1) (length from) then drop (at + 1) from else hostname
  ]

  unfoldable pub identifier : Options → Bytes → Bytes
  identifier opts from = lib.message_id (identifier_domain opts.hostname from)

  unfoldable pub received : Options → Bytes → Bytes
  received opts id =
      codes "Received: from "
      ++ (trace_value opts.helo
          ++ ((if is_empty opts.remote
                then []
                else codes " (" ++ (trace_value opts.remote ++ codes ")"))
              ++ (crlf
                  ++ (9 ∷ codes "by "
                      ++ (opts.hostname
                          ++ (codes " with "
                              ++ (protocol opts.tls
                                  ++ (codes " id "
                                      ++ (trim_angles id
                                          ++ (codes ";" ++ (crlf ++ (9 ∷ lib.now ++ crlf))))))))))))

  unfoldable pub line_if : Bool → Bytes → Bytes
  line_if true line = line ++ crlf
  line_if false line = []

  -- The fields that are put before those of the submission.
  unfoldable pub added : Options → List Field → Bytes → Bytes → Bytes
  added opts fields from body =
      let eight_bit = has_high_bit body in
      let typed =
        not (is_present (codes "content-type") fields) && (eight_bit && valid_utf8 body) in
      let id = identifier opts from in
      received opts id
      ++ (line_if (not (has_date fields)) (codes "Date: " ++ lib.now)
          ++ (line_if (not (has_id fields)) (codes "Message-ID: " ++ id)
              ++ (line_if
                    (not (is_present (codes "to") fields) && not (is_present (codes "cc") fields))
                    (codes "To: undisclosed-recipients:;")
                  ++ (line_if typed (codes "Content-Type: text/plain; charset=utf-8")
                      ++ (line_if
                            (not (is_present (codes "content-transfer-encoding") fields)
                              && eight_bit)
                            (codes "Content-Transfer-Encoding: 8bit")
                          ++ line_if
                              (not (is_present (codes "mime-version") fields)
                                && (is_present (codes "content-type") fields || typed || eight_bit))
                              (codes "MIME-Version: 1.0"))))))

  -- A field that stays: Bcc and Return-Path do not, nor does a date or an identifier that is replaced.
  unfoldable pub stays : List Field → Field → Bool
  stays fields f =
      if str_eq f.name (codes "bcc")
        || str_eq f.name (codes "resent-bcc")
        || str_eq f.name (codes "return-path")
      then false
      else if str_eq f.name (codes "date")
      then not (is_present_field fields (codes "date") && not (has_date fields))
      else if str_eq f.name (codes "message-id")
      then not (is_present_field fields (codes "message-id") && not (has_id fields))
      else true

  unfoldable pub kept : (Field → Bool) → List Field → List Field
  kept p [] = []
  kept p (f ∷ fs) = let rest = kept p fs in if p f then f ∷ rest else rest

  abbrev pub join : List Field → Bytes
  join [] = []
  join (f ∷ fs) = f.value ++ join fs

  unfoldable pub used_id : Options → List Field → Bytes → Bytes
  used_id opts fields from = elim (first_field fields (codes "message-id")) [
    | none ↦ identifier opts from
    | some f ↦ if valid_message_id (text f) then trim_space (text f) else identifier opts from
  ]

  unfoldable pub prepare : Options → Bytes → Result PrepareError Message
  prepare opts raw = do
    check_size opts.max_bytes raw
    normal ← lift (normalize raw)
    reject_if (ltb max_header_bytes (length (split normal).0)) (message header_size)
    fields ← read_fields (split normal).0
    check_from fields
    o ← visit_all fields (record { from = []; sender = []; needs_utf8 = false })
    ok (record {
      text =
          added opts fields o.from (split normal).1
          ++ (join (kept (stays fields) fields) ++ (crlf ++ (split normal).1));
      from = o.from;
      sender = o.sender;
      id = used_id opts fields o.from;
      needs_utf8 = o.needs_utf8;
      eight_bit = has_high_bit (split normal).1;
    })
