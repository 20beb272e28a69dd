-- ===== src/Queue/Validation/Bodies.antt =====
-- internal/queue/validation.go: the bodies of an accepted envelope are the stored body, cut in pieces.
use Prim.{absurd}
use outboxd.Common.{
  ℕ, ◌+◌, ◌-◌, ◌≤◌, ◌<◌, false, not, ◌&&◌, ◌||◌, Bytes, Option, List, [], ◌∷◌, ◌++◌, length, ltb,
  ◌==◌, ◌≡◌, ◌≢◌, refl, ap, ◌∙◌, arith,
}
use outboxd.Common.Result.{ok, ◌>>◌, reject_if, reject_if-parts}
use outboxd.Common.Strings.{take, drop, is_empty, take-drop-append, take-length}
use outboxd.Queue.Envelope.{Envelope, Body}
use outboxd.Queue.Validation.{
  validate_envelope, check_bodies, valid_body_digest, invalid_body_range, invalid_digest_of,
}
use outboxd.Queue.Validation.Accepted.{accept-parts}

-- Bodies that lie one after the other from `start` to `finish`, none of them empty.
abbrev pub Covers : ℕ → List Body → ℕ → Type 0
Covers start [] finish = start ≡ finish
Covers start (b ∷ bs) finish = (b.offset ≡ start) × (0 < b.size) × Covers (start + b.size) bs finish

-- What the queue reads for a body.
abbrev pub slice : Bytes → Body → Bytes
slice stored b = take b.size (drop b.offset stored)

abbrev pub join_slices : Bytes → List Body → Bytes
join_slices stored [] = []
join_slices stored (b ∷ bs) = slice stored b ++ join_slices stored bs

pub check_bodies-Covers :
    (size i start : ℕ) (bs : List Body) (finish : ℕ)
    → check_bodies size i start bs ≡ ok finish
    → Covers start bs finish
unfolding check_bodies
check_bodies-Covers size i start [] finish h = ground arith
check_bodies-Covers size i start (b ∷ bs) finish h =
    let next = check_bodies size (i + 1) (start + b.size) bs in
    let (range, h1) =
      reject_if-parts (not (b.offset == start) || b.size == 0 || ltb (size - b.offset) b.size)
        (invalid_body_range i)
        (reject_if (not (valid_body_digest b.digest)) (invalid_digest_of i) >> next) h in
    let (_, h2) =
      reject_if-parts (not (valid_body_digest b.digest)) (invalid_digest_of i) next h1 in
    let rest = check_bodies-Covers size (i + 1) (start + b.size) bs finish h2 in
    (ground arith, ground arith, rest)

pub Covers-le : (start : ℕ) (bs : List Body) (finish : ℕ) → Covers start bs finish → start ≤ finish
Covers-le start [] finish h = omega arith
Covers-le start (b ∷ bs) finish h = omega (arith, Covers-le (start + b.size) bs finish h.2)

join_slices-take :
    (stored : Bytes) (start : ℕ) (bs : List Body) (finish : ℕ)
    → Covers start bs finish
    → join_slices stored bs ≡ take (finish - start) (drop start stored)
join_slices-take stored start [] finish h = let e : finish - start ≡ 0 = omega arith in rw e refl
join_slices-take stored start (b ∷ bs) finish h =
    let le = Covers-le (start + b.size) bs finish h.2 in
    let e : finish - start ≡ b.size + (finish - (start + b.size)) = omega arith in
    rw (join_slices-take stored (start + b.size) bs finish h.2, h.0, e)
      (take-drop-append start b.size (finish - (start + b.size)) stored)

covered_whole :
    (size : ℕ) (bs : List Body) (end : ℕ)
    → bs ≢ []
    → (not (is_empty bs) && not (end == size)) ≡ false
    → Covers 0 bs end
    → Covers 0 bs size
covered_whole size [] end nonempty cover h = absurd (nonempty refl)
covered_whole size (b ∷ bs) end nonempty cover h = let e : end ≡ size = ground arith in rw (← e) h

-- Of an accepted envelope that has bodies, with a stored body of the envelope's size, the bodies'
-- slices in their order are the stored body: none is empty, and no byte is lost or read twice.
pub validate-join_slices :
    (to_ascii : Bytes → Option Bytes) (sha256 : Bytes → Bytes) (stored : Bytes) (e : Envelope)
    {e' : Envelope}
    → validate_envelope to_ascii sha256 e ≡ ok e'
    → e.bodies ≢ []
    → length stored ≡ e.size
    → Covers 0 e'.bodies e'.size × (join_slices stored e'.bodies ≡ stored)
validate-join_slices to_ascii sha256 stored e h nonempty size =
    let a = accept-parts to_ascii sha256 e h in
    let covers =
      covered_whole e.size e.bodies a.end nonempty a.cover
        (check_bodies-Covers e.size 0 0 e.bodies a.end a.bodies) in
    let whole : e.size - 0 ≡ length stored = omega arith in
    let joined = join_slices-take stored 0 e.bodies e.size covers in
    rw a.result (covers, joined ∙ ap (λ n. take n stored) whole ∙ take-length stored)
