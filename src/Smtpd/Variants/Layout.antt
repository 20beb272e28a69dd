-- ===== src/Smtpd/Variants/Layout.antt =====
-- internal/smtpd/data.go: how prepareVariants lays the variants out in the bundle.
use Prim.{absurd}
use outboxd.Common.{
  ℕ, zero, suc, ◌+◌, ◌≤◌, ◌<◌, Bool, Bytes, some, List, [], ◌∷◌, ◌++◌, length, get_elem?, ◌≡◌, refl,
  sym, ap, ◌∙◌, subst, arith,
}
use outboxd.Common.Strings.{take, drop, take-length}
use outboxd.Queue.Envelope.{Body, new_body}
use outboxd.Queue.Validation.Bodies.{Covers, Covers-le, slice}

-- A body lies in the first `size` bytes.
pub Covers-within :
    (start : ℕ) (bs : List Body) (finish i : ℕ) (b : Body)
    → Covers start bs finish
    → get_elem? bs i ≡ some b
    → b.offset + b.size ≤ finish
Covers-within start [] finish i b h e = cc
Covers-within start (x ∷ bs) finish zero b h e =
    let q : x ≡ b = cc in
    let le = Covers-le (start + x.size) bs finish h.2 in
    subst (λ (y : Body). y.offset + y.size ≤ finish) q (omega arith)
Covers-within start (x ∷ bs) finish (suc i) b h e =
    Covers-within (start + x.size) bs finish i b h.2 e

pub Covers-append :
    (start : ℕ) (bs : List Body) (finish : ℕ) (b : Body)
    → Covers start bs finish
    → b.offset ≡ finish
    → 0 < b.size
    → Covers start (bs ++ b ∷ []) (finish + b.size)
Covers-append start [] finish b h o p = (o ∙ sym h, p, omega arith)
Covers-append start (x ∷ bs) finish b h o p =
    (h.0, h.1, Covers-append (start + x.size) bs finish b h.2 o p)

module _ {A : Type 0} where
  take-append : (n : ℕ) (xs ys : List A) → n ≤ length xs → take n (xs ++ ys) ≡ take n xs
  take-append zero xs ys h = refl
  take-append (suc n) [] ys h = absurd (omega arith)
  take-append (suc n) (x ∷ xs) ys h = ap (λ t. x ∷ t) (take-append n xs ys (omega arith))

  take-drop-within :
      (o n : ℕ) (xs ys : List A)
      → o + n ≤ length xs
      → take n (drop o (xs ++ ys)) ≡ take n (drop o xs)
  take-drop-within zero n xs ys h = take-append n xs ys (omega arith)
  take-drop-within (suc o) n [] ys h = absurd (omega arith)
  take-drop-within (suc o) n (x ∷ xs) ys h = take-drop-within o n xs ys (omega arith)

  drop-append : (xs ys : List A) → drop (length xs) (xs ++ ys) ≡ ys
  drop-append [] ys = refl
  drop-append (x ∷ xs) ys = drop-append xs ys

  pub get_elem?-append :
      (xs ys : List A) (i : ℕ) (x : A) → get_elem? xs i ≡ some x → get_elem? (xs ++ ys) i ≡ some x
  get_elem?-append [] ys i x h = cc
  get_elem?-append (y ∷ xs) ys zero x h = h
  get_elem?-append (y ∷ xs) ys (suc i) x h = get_elem?-append xs ys i x h

  pub get_elem?-last : (xs : List A) (x : A) → get_elem? (xs ++ x ∷ []) (length xs) ≡ some x
  get_elem?-last [] x = refl
  get_elem?-last (y ∷ xs) x = get_elem?-last xs x

-- What is appended to the bundle changes no body that lies within it.
pub slice-within :
    (bytes more : Bytes) (b : Body)
    → b.offset + b.size ≤ length bytes
    → slice (bytes ++ more) b ≡ slice bytes b
slice-within bytes more b h = take-drop-within b.offset b.size bytes more h

-- The body that appending makes is what was appended.
pub slice-new_body :
    (digest : Bytes → Bytes) (bytes variant : Bytes) (eight_bit : Bool)
    → slice (bytes ++ variant) (new_body digest (length bytes) variant eight_bit) ≡ variant
unfolding new_body
slice-new_body digest bytes variant eight_bit =
    ap (take (length variant)) (drop-append bytes variant) ∙ take-length variant
