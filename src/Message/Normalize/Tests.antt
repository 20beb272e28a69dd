-- ===== src/Message/Normalize/Tests.antt =====
-- The normal form of internal/message/message.go for a concrete message.
use outboxd.Common.{◌≡◌, refl, Bytes, [], ◌∷◌}
use outboxd.Common.Result.{ok}
use outboxd.Message.Normalize.{
  normalize, normalize_from, contains_nul, kind, finish, ends_with_crlf,
}
use outboxd.Message.Normalize.Canonical.{Lines, normalize-Lines, normalize-idempotent}

abbrev raw : Bytes
raw = 65 ∷ 10 ∷ 66 ∷ []

abbrev out : Bytes
out = 65 ∷ 13 ∷ 10 ∷ 66 ∷ 13 ∷ 10 ∷ []

raw-normalized : normalize raw ≡ ok out
unfolding normalize normalize_from contains_nul kind finish ends_with_crlf
raw-normalized = refl

normalize-Lines_example : Lines 0 out
normalize-Lines_example = normalize-Lines raw out raw-normalized

normalize-idempotent_example : normalize out ≡ ok out
normalize-idempotent_example = normalize-idempotent raw out raw-normalized
