-- ===== src/Queue/Ids/Tests.antt =====
-- internal/queue/identity.go: runs on concrete identifiers.
use outboxd.Common.{ℕ, zero, suc, true, false, Bytes, codes, str_eq, [], ◌∷◌, ◌≡◌, refl, arith}
use outboxd.Common.Strings.{has_prefix, last_index_byte, split_at_byte}
use outboxd.Queue.Ids.{
  validate_id, matches_id_pattern, base, clean, clean_parts, clean_step, join_reversed,
  drop_trailing_slashes, dsn_id, decimal, decimal_digits,
}
use outboxd.Queue.Ids.Pattern.{validate_id-pattern, validate_id-dsn_id}

abbrev fives : ℕ → Bytes
fives zero = []
fives (suc n) = 5 ∷ fives n

abbrev constant_hash : Bytes → Bytes
constant_hash text = fives 32

base_of_path : base (codes "spool/a1//") ≡ codes "a1"
unfolding base drop_trailing_slashes last_index_byte
base_of_path = refl

clean_of_path : clean (codes "/spool/./x/../a1") ≡ codes "/spool/a1"
unfolding clean clean_parts clean_step join_reversed split_at_byte has_prefix str_eq
clean_of_path = refl

traversal : validate_id (codes "../a1") ≡ false
unfolding validate_id matches_id_pattern
traversal = refl

largest : decimal 18446744073709551615 ≡ codes "18446744073709551615"
unfolding decimal decimal_digits
largest = refl

validate_id-pattern_example : validate_id (codes "m1.a-b") ≡ matches_id_pattern (codes "m1.a-b")
validate_id-pattern_example = validate_id-pattern (codes "m1.a-b")

validate_id-dsn_id_example : validate_id (dsn_id constant_hash (codes "m1") (codes "00ff") 1) ≡ true
validate_id-dsn_id_example =
    validate_id-dsn_id constant_hash (codes "m1") (codes "00ff") 1 (λ text. (refl, omega arith))
