-- ===== src/Smtpd/Login.antt =====
-- internal/smtpd/login.go: the LOGIN mechanism of SASL as a state machine. A call of authenticate is
-- the reply `authenticates`, with its arguments; the source returns that call's error.
pub mod Calls
mod Tests
use outboxd.Common.{Bool, true, false, Bytes, List, [], ◌∷◌, str_eq, if◌then◌else◌}

pub data LoginState : Type 0 where
  init username password done : LoginState

pub record LoginServer : Type 0 where
  pub user : Bytes
  pub state : LoginState

pub data Reply : Type 0 where
  -- A challenge, `Username:` or `Password:`, and no end.
  ask_username ask_password : Reply
  authenticates : Bytes → Bytes → Reply
  -- sasl.ErrUnexpectedClientResponse
  unexpected : Reply

unfoldable pub new_login_server : LoginServer
new_login_server = record { user = []; state = init }

unfoldable pub next_in : LoginState → LoginServer → Bytes → LoginServer × Reply
next_in username s response =
    if str_eq response []
    then (record s { state = done }, unexpected)
    else (record { user = response; state = password }, ask_password)
next_in password s response = (record s { state = done }, authenticates s.user response)
next_in _ s response = (s, unexpected)

unfoldable pub next_from : LoginState → LoginServer → Bytes → LoginServer × Reply
unfolding next_in
next_from init s response =
    if str_eq response []
    then (record s { state = username }, ask_username)
    else next_in username (record s { state = username }) response
next_from state s response = next_in state s response

unfoldable pub next : LoginServer → Bytes → LoginServer × Reply
unfolding next_from
next s response = next_from s.state s response

-- A client's responses, and the replies to them.
unfoldable pub replies : LoginServer → List Bytes → List Reply
replies s [] = []
replies s (r ∷ rs) = let (s', reply) = next s r in reply ∷ replies s' rs
