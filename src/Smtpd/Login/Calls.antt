-- ===== src/Smtpd/Login/Calls.antt =====
-- When internal/smtpd/login.go checks a password, and which.
use outboxd.Common.{◌≡◌, refl, Bytes, List, [], ◌∷◌, arith, str_eq}
use outboxd.Smtpd.Login.{password, done, Reply, authenticates, new_login_server, next, replies}

-- The password checks among the replies.
abbrev pub checks : List Reply → List (Bytes × Bytes)
checks [] = []
checks (authenticates u p ∷ rs) = (u, p) ∷ checks rs
checks (_ ∷ rs) = checks rs

-- What a client that sends these responses asks to have checked: a user name that is not empty and
-- the response after it, behind an empty initial response or not.
abbrev pub asked : List Bytes → List (Bytes × Bytes)
asked ([] ∷ (c ∷ u) ∷ p ∷ rest) = (c ∷ u, p) ∷ []
asked ((c ∷ u) ∷ p ∷ rest) = (c ∷ u, p) ∷ []
asked _ = []

checks-done :
    (u : Bytes) (rs : List Bytes) → checks (replies (record { user = u; state = done }) rs) ≡ []
unfolding replies next
checks-done u [] = refl
checks-done u (r ∷ rs) = checks-done u rs

checks-password :
    (u : Bytes) (p : Bytes) (rs : List Bytes)
    → checks (replies (record { user = u; state = password }) (p ∷ rs)) ≡ (u, p) ∷ []
unfolding replies next
checks-password u p rs = ground (arith, checks-done u rs)

-- Whatever a client sends, the password is checked at most once, for the user name and the password
-- that it sent in this order; it is never checked for an empty user name, nor after the end.
pub checks-replies : (rs : List Bytes) → checks (replies new_login_server rs) ≡ asked rs
unfolding replies next new_login_server str_eq
checks-replies [] = refl
checks-replies ((c ∷ u) ∷ []) = refl
checks-replies ((c ∷ u) ∷ p ∷ rs) = checks-password (c ∷ u) p rs
checks-replies ([] ∷ []) = refl
checks-replies ([] ∷ [] ∷ rs) = checks-done [] rs
checks-replies ([] ∷ (c ∷ u) ∷ []) = refl
checks-replies ([] ∷ (c ∷ u) ∷ p ∷ rs) = checks-password (c ∷ u) p rs
