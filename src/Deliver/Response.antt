-- ===== src/Deliver/Response.antt =====
-- internal/deliver/response.go: the bound on one SMTP reply, and what its code means. A read of the
-- connection below is its number of bytes and whether it fails; the bytes themselves pass through.
pub mod Bound
mod Tests
use outboxd.Common.{
  ℕ, ◌+◌, ◌-◌, ◌*◌, ◌/◌, ◌^◌, min, Bool, true, false, not, ◌&&◌, ◌||◌, Bytes, Option, none, some,
  List, [], ◌∷◌, ltb, leb, ◌==◌, if◌then◌else◌,
}

abbrev pub max_smtp_response_bytes : ℕ
max_smtp_response_bytes = 64 * 2 ^ 10

abbrev pub max_response_read : ℕ
max_response_read = 1024

-- `remaining` does not fall below zero, since a read returns at most the bytes that are asked for.
pub record BoundedResponseConn : Type 0 where
  pub remaining : ℕ
  pub exceeded : Bool

pub data ReadError : Type 0 where
  response_too_large connection_failed : ReadError

unfoldable pub reset : BoundedResponseConn → BoundedResponseConn
reset c = record { remaining = max_smtp_response_bytes + 1; exceeded = false }

unfoldable pub exceeded_limit : BoundedResponseConn → Bool
exceeded_limit c = c.exceeded

-- What the connection below does with a read of at most `limit` bytes.
pub record Arrival : Type 0 where
  pub bytes : ℕ
  pub fails : Bool

-- Read into a buffer of `size` bytes: the state, the bytes read and the error.
unfoldable pub read :
    ℕ → (ℕ → Arrival) → BoundedResponseConn → BoundedResponseConn × ℕ × Option ReadError
read size conn c =
    let arrival = conn (min size (min c.remaining max_response_read)) in
    let left = c.remaining - arrival.bytes in
    if c.remaining == 0 then (c, 0, some response_too_large) else (
      record { remaining = left; exceeded = if left == 0 then true else c.exceeded },
      arrival.bytes,
      if arrival.fails
          then some connection_failed
          else if left == 0
          then some response_too_large
          else none,
    )

pub record SmtpError : Type 0 where
  pub code : ℕ
  pub enhanced_code : Bytes
  pub message : Bytes

-- An error is an SMTP reply, where errors.AsType finds one.
unfoldable pub smtp_code : Option SmtpError → ℕ
smtp_code none = 0
smtp_code (some e) = e.code

unfoldable pub smtp_enhanced_code : Option SmtpError → Bytes
smtp_enhanced_code none = []
smtp_enhanced_code (some e) = e.enhanced_code

unfoldable pub permanent : Option SmtpError → Bool
unfolding smtp_code
permanent e = leb 500 (smtp_code e) && ltb (smtp_code e) 600
