-- ===== src/Message/Prepare/Kept.antt =====
-- internal/message/message.go: what PrepareContext keeps of a submission, and what it requires of it.
use Prim.{absurd}
use outboxd.Common.{
  ℕ, ◌+◌, ◌<◌, Bool, true, false, not, ◌&&◌, ◌||◌, Bytes, codes, str_eq, str_eq_iff, some, List, [],
  ◌∷◌, ◌++◌, length, length-append, ltb, ◌≡◌, ◌≢◌, ◌⊎◌, inl, inr, refl, sym, ap, ◌∙◌, subst, arith,
  All, Bool-cases, Option-cases, if◌then◌else◌,
}
use outboxd.Common.Result.{Result, ok, err, bind-parts, then-parts, reject_if-parts}
use outboxd.Common.Strings.{is_empty, has_prefix}
use outboxd.Common.Utf8.{valid_utf8, has_high_bit}
use outboxd.Mailbox.{validate_address}
use outboxd.Message.Fields.{Field, scan, text}
use outboxd.Message.Fields.Scanned.{join_values, scan-fields}
use outboxd.Message.Normalize.{normalize, split, crlf, MessageError, header_size, resent}
use outboxd.Message.Prepare.{
  Library, Options, Message, message, header_not_utf8, Originators, prepare, visit, visit_all,
  read_originator, set_originator, check_from, check_size, read_fields, count_named, is_originator,
  stays, kept, join, added, used_id, lift, max_header_bytes, parsed_or_invalid, or_invalid,
  preserve_local_part_case,
}
use outboxd.Message.Prepare.Remains.{Front, Remains, added-Front, kept-Remains}

abbrev from_name : Bytes
from_name = codes "from"

module _ (lib : Library) where
  abbrev IsAddress : Bytes → Type 0
  IsAddress addr = validate_address lib.to_ascii addr ≡ ok tt

  -- A submission may do without a Sender.
  abbrev SenderIsFine : Originators → Type 0
  SenderIsFine o = (is_empty o.sender ≡ true) ⊎ IsAddress o.sender

  or_invalid_ok :
      {E : Type 0} (name : Bytes) (m : Result E (Unit {0})) → or_invalid name m ≡ ok tt → m ≡ ok tt
  or_invalid_ok name (ok tt) h = refl
  or_invalid_ok name (err e) h = cc

  set-parts :
      (f : Field) (addr : Bytes) (o o' : Originators)
      → set_originator f addr o ≡ ok o'
      → (o.needs_utf8 ≡ true → o'.needs_utf8 ≡ true)
        × (str_eq f.name from_name ≡ true → o'.from ≡ addr)
        × (str_eq f.name from_name ≡ false → o'.from ≡ o.from)
        × ((o'.sender ≡ o.sender) ⊎ (o'.sender ≡ addr))
  unfolding set_originator
  set-parts f addr o o' h = elim (Bool-cases (str_eq f.name from_name)) [
    | inl e ↦ (λ n. ground arith, λ _. ground arith, λ n. cc, inl (ground arith))
    | inr e ↦ (λ n. ground arith, λ n. cc, λ _. ground arith, inr (ground arith))
  ]

  -- What one round of the loop over the fields requires and leaves.
  record Visited (f : Field) (o o' : Originators) : Type 0 where
    not_resent : has_prefix f.name (codes "resent-") ≡ false
    utf8 : (has_high_bit f.value && not (valid_utf8 f.value)) ≡ false
    needs : (o.needs_utf8 || has_high_bit f.value) ≡ true → o'.needs_utf8 ≡ true
    from_set : str_eq f.name from_name ≡ true → IsAddress o'.from
    from_kept : str_eq f.name from_name ≡ false → o'.from ≡ o.from
    sender : SenderIsFine o → SenderIsFine o'

  abbrev seen : Field → Originators → Originators
  seen f o = record o { needs_utf8 = o.needs_utf8 || has_high_bit f.value }

  sender_fine :
      (o o' : Originators) (addr : Bytes)
      → IsAddress addr
      → (o'.sender ≡ o.sender) ⊎ (o'.sender ≡ addr)
      → SenderIsFine o
      → SenderIsFine o'
  sender_fine o o' addr valid (inl e) (inl h) = inl (ap is_empty e ∙ h)
  sender_fine o o' addr valid (inl e) (inr h) = inr (ap (validate_address lib.to_ascii) e ∙ h)
  sender_fine o o' addr valid (inr e) h = inr (ap (validate_address lib.to_ascii) e ∙ valid)

  visit-Visited : (f : Field) (o o' : Originators) → visit lib f o ≡ ok o' → Visited f o o'
  unfolding visit read_originator
  visit-Visited f o o' h =
      let (r, h1) = reject_if-parts (has_prefix f.name (codes "resent-")) (message resent) _ h in
      let (u, h2) =
        reject_if-parts (has_high_bit f.value && not (valid_utf8 f.value)) header_not_utf8
          (if is_originator f.name then read_originator lib f (seen f o) else ok (seen f o)) h1 in
      elim (Bool-cases (is_originator f.name)) [
        | inr e ↦
            let same : seen f o ≡ o' = ground arith in
            record {
              not_resent = r;
              utf8 = u;
              needs = λ n. ap (λ (x : Originators). x.needs_utf8) (sym same) ∙ n;
              from_set = λ n. ground arith;
              from_kept = λ _. ap (λ (x : Originators). x.from) (sym same);
              sender = λ s. subst SenderIsFine same s;
            }
        | inl e ↦
            let h3 : read_originator lib f (seen f o) ≡ ok o' = rw e at h2 in
            let (parsed, _, h4) =
              bind-parts (parsed_or_invalid f.name (lib.parse_address (text f))) _ h3 in
            let addr = preserve_local_part_case lib (text f) parsed in
            let (valid, h5) =
              then-parts (or_invalid f.name (validate_address lib.to_ascii addr))
                (set_originator f addr (seen f o)) h4 in
            let address = or_invalid_ok f.name (validate_address lib.to_ascii addr) valid in
            let (needs, set, keep, sender) = set-parts f addr (seen f o) o' h5 in
            record {
              not_resent = r;
              utf8 = u;
              needs = needs;
              from_set = λ n. ap (validate_address lib.to_ascii) (set n) ∙ address;
              from_kept = keep;
              sender = sender_fine (seen f o) o' addr address sender;
            }
      ]

  -- A field that the submission may have.
  abbrev IsAccepted : Field → Type 0
  IsAccepted f =
      (has_prefix f.name (codes "resent-") ≡ false)
      × ((has_high_bit f.value && not (valid_utf8 f.value)) ≡ false)

  record VisitedAll (fs : List Field) (o o' : Originators) : Type 0 where
    accepted : All IsAccepted fs
    ascii :
        o'.needs_utf8 ≡ false → (o.needs_utf8 ≡ false) × All (λ f. has_high_bit f.value ≡ false) fs
    from : IsAddress o.from ⊎ (0 < count_named from_name fs) → IsAddress o'.from
    sender : SenderIsFine o → SenderIsFine o'

  Visited-from :
      (f : Field) (o o1 : Originators) (n : ℕ)
      → Visited f o o1
      → IsAddress o.from ⊎ (0 < (if str_eq f.name from_name then 1 else 0) + n)
      → IsAddress o1.from ⊎ (0 < n)
  Visited-from f o o1 n v h = elim (Bool-cases (str_eq f.name from_name)) [
    | inl e ↦ inl (v.from_set e)
    | inr e ↦ later e h
  ]
    where
      later :
          str_eq f.name from_name ≡ false
          → IsAddress o.from ⊎ (0 < (if str_eq f.name from_name then 1 else 0) + n)
          → IsAddress o1.from ⊎ (0 < n)
      later e (inl valid) = inl (ap (validate_address lib.to_ascii) (v.from_kept e) ∙ valid)
      later e (inr more) = inr (ground arith)

  visit_all-Visited :
      (fs : List Field) (o o' : Originators) → visit_all lib fs o ≡ ok o' → VisitedAll fs o o'
  unfolding visit_all count_named
  visit_all-Visited [] o o' h =
      let same : o ≡ o' = cc in
      subst (VisitedAll [] o) same (record {
        accepted = tt;
        ascii = λ n. (n, tt);
        from = λ s. elim s [ inl valid ↦ valid | inr more ↦ absurd (omega arith) ];
        sender = λ s. s;
      })
  visit_all-Visited (f ∷ fs) o o' h =
      let (o1, h1, h2) = bind-parts (visit lib f o) _ h in
      let v = visit-Visited f o o1 h1 in
      let rest = visit_all-Visited fs o1 o' h2 in
      record {
        accepted = ((v.not_resent, v.utf8), rest.accepted);
        ascii = λ (n : o'.needs_utf8 ≡ false).
            let (n1, all) = rest.ascii n in
            let clean : (o.needs_utf8 || has_high_bit f.value) ≡ false = ground (arith, v.needs) in
            (ground arith, (ground arith, all));
        from = λ s. rest.from (Visited-from f o o1 (count_named from_name fs) v s);
        sender = λ s. rest.sender (v.sender s);
      }

  abbrev IsPublic : Field → Type 0
  IsPublic f =
      (f.name ≢ codes "bcc") × (f.name ≢ codes "resent-bcc") × (f.name ≢ codes "return-path")

  stays-IsPublic : (fields : List Field) (f : Field) → stays lib fields f ≡ true → IsPublic f
  unfolding stays
  stays-IsPublic fields f h = (
    λ e. ground (arith, str_eq_iff f.name (codes "bcc")),
    λ e. ground (arith, str_eq_iff f.name (codes "resent-bcc")),
    λ e. ground (arith, str_eq_iff f.name (codes "return-path")),
  )

  kept-All :
      (p : Field → Bool) (fs : List Field)
      → ((f : Field) → p f ≡ true → IsPublic f)
      → All IsPublic (kept lib p fs)
  unfolding kept
  kept-All p [] h = tt
  kept-All p (f ∷ fs) h = elim (Bool-cases (p f)) [
    | inl e ↦ rw e (h f e, kept-All p fs h)
    | inr e ↦ rw e (kept-All p fs h)
  ]

  -- What holds of a prepared message and the submission it is made of.
  pub record IsPrepared (opts : Options) (raw : Bytes) (m : Message) : Type 0 where
    pub normal : Bytes
    pub header : Bytes
    pub body : Bytes
    pub fields : List Field
    pub front : Bytes
    pub rest : List Field
    pub normalized : normalize raw ≡ ok normal
    pub cut : split normal ≡ (header, body)
    pub whole : join_values fields ≡ header
    pub text : m.text ≡ front ++ (join lib rest ++ (crlf ++ body))
    pub lines : Front lib opts fields m.from body front
    pub remains : Remains lib fields fields rest
    pub hidden : All IsPublic rest
    pub accepted : All IsAccepted fields
    pub one_from : count_named from_name fields ≡ 1
    pub from : IsAddress m.from
    pub sender : (is_empty m.sender ≡ true) ⊎ IsAddress m.sender
    pub ascii : m.needs_utf8 ≡ false → All (λ f. has_high_bit f.value ≡ false) fields
    pub eight_bit : m.eight_bit ≡ has_high_bit body

  check_from-one : (fs : List Field) → check_from fs ≡ ok tt → count_named from_name fs ≡ 1
  unfolding check_from
  check_from-one fs h = ground arith

  lift_ok : {A : Type 0} (r : Result MessageError A) (a : A) → lift r ≡ ok a → r ≡ ok a
  lift_ok (ok b) a h = ground arith
  lift_ok (err e) a h = cc

  read-scan :
      (header : Bytes) (fields : List Field)
      → read_fields header ≡ ok fields
      → scan header ≡ some (ok fields)
  unfolding read_fields
  read-scan header fields h = elim (Option-cases (scan header)) [
    | inl e ↦ ground arith
    | inr (r, e) ↦ e ∙ ap some (lift_ok r fields (ground arith))
  ]

  -- A submission that is accepted has exactly one From, whose address is a mailbox, as is that of
  -- Sender if there is one, no Resent field, and no field in invalid UTF-8. The message is the lines
  -- that are added, then the submission's own fields in their order and byte for byte, and its body.
  -- Left out of the fields are exactly Bcc, Resent-Bcc, Return-Path, the Date fields if the first one
  -- has no date, and the Message-ID fields if the first one has no identifier. Added are Received, Date
  -- and Message-ID exactly where the submission has no usable one, To exactly where it has no To and no
  -- Cc, Content-Type exactly where it has none and the body is UTF-8 beyond ASCII,
  -- Content-Transfer-Encoding exactly where it has none and the body is beyond ASCII, and MIME-Version
  -- exactly where it has none and the body is beyond ASCII or it has a Content-Type. A message that
  -- does not need SMTPUTF8 has no byte above 127 in the submission's fields.
  pub prepare-IsPrepared :
      (opts : Options) (raw : Bytes) (m : Message)
      → prepare lib opts raw ≡ ok m
      → IsPrepared opts raw m
  unfolding prepare
  prepare-IsPrepared opts raw m h =
      let (_, h1) = then-parts (check_size opts.max_bytes raw) _ h in
      let (normal, hn, h2) = bind-parts (lift (normalize raw)) _ h1 in
      let header = (split normal).0 in
      let body = (split normal).1 in
      let (_, h3) =
        reject_if-parts (ltb max_header_bytes (length header)) (message header_size) _ h2 in
      let (fields, hf, h4) = bind-parts (read_fields header) _ h3 in
      let (one, h5) = then-parts (check_from fields) _ h4 in
      let (o, ho, h6) =
        bind-parts (visit_all lib fields (record { from = []; sender = []; needs_utf8 = false })) _
          h5 in
      let v =
        visit_all-Visited fields (record { from = []; sender = []; needs_utf8 = false }) o ho in
      let count = check_from-one fields one in
      let (whole, _, _) = scan-fields header fields (read-scan header fields hf) in
      let front = added lib opts fields o.from body in
      let made : Message = record {
        text = front ++ (join lib (kept lib (stays lib fields) fields) ++ (crlf ++ body));
        from = o.from;
        sender = o.sender;
        id = used_id lib opts fields o.from;
        needs_utf8 = o.needs_utf8;
        eight_bit = has_high_bit body;
      } in
      let same : made ≡ m = cc in
      subst (IsPrepared opts raw) same (record {
        normal = normal;
        header = header;
        body = body;
        fields = fields;
        front = front;
        rest = kept lib (stays lib fields) fields;
        normalized = lift_ok (normalize raw) normal hn;
        cut = refl;
        whole = whole;
        text = refl;
        lines = added-Front lib opts fields o.from body;
        remains = kept-Remains lib fields fields;
        hidden = kept-All (stays lib fields) fields (stays-IsPublic fields);
        accepted = v.accepted;
        one_from = count;
        from = v.from (inr (omega arith));
        sender = v.sender (inl refl);
        ascii = λ n. (v.ascii n).1;
        eight_bit = refl;
      })

  -- A prepared message is not empty: a line end separates its header from its body.
  pub prepare-nonempty :
      (opts : Options) (raw : Bytes) (m : Message) → prepare lib opts raw ≡ ok m → 0 < length m.text
  prepare-nonempty opts raw m h =
      let p = prepare-IsPrepared opts raw m h in
      let tail = join lib p.rest in
      omega (
        arith,
        ap length p.text,
        length-append p.front (tail ++ (crlf ++ p.body)),
        length-append tail (crlf ++ p.body),
        length-append crlf p.body,
      )
