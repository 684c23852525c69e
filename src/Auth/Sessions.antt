-- ===== src/Auth/Sessions.antt =====
-- Which refresh token is accepted, after any requests to app/services/auth_service.py: told from the
-- replies alone, which is what the clients have seen.
pub mod Steps
pub mod Accepted
pub mod History
use crypto_back.Prelude.{
  ℕ, String, Bool, true, false, ◌&&◌, Option, none, some, List, [], ◌∷◌, ◌==◌, str_eq,
  if◌then◌else◌,
}
use crypto_back.Exec.{Result, ok, err, Exec}
use crypto_back.World.{World}
use crypto_back.Sql.{Table}
use crypto_back.Users.{User}
use crypto_back.Security.{Libraries, Claims}
use crypto_back.Auth.{TokenResponse, register, login, refresh, has_type}

-- The three methods, with what bcrypt and `uuid4` draw.
pub data Call : Type 0 where
  register_call : (salt new_id : ℕ) (email password : String) → Call
  login_call : (email password : String) → Call
  refresh_call : (token : String) → Call

pub data Reply : Type 0 where
  user : User → Reply
  tokens : TokenResponse → Reply

abbrev pub is_ok : {A : Type 0} → Result A → Bool
is_ok (ok a) = true
is_ok (err e) = false

abbrev pub reply_as : {A : Type 0} → (A → Reply) → Result A → Result Reply
reply_as f (ok a) = ok (f a)
reply_as f (err e) = err e

module _ {S D : Type 0} (t : Table User D) (l : Libraries) where
  -- A request at its time.
  unfoldable pub serve : ℕ × Call → Exec (World S D) Reply
  serve (now, register_call salt new_id email password) w =
      let (r, w') = register t l salt new_id email password (record w { now = now }) in
      (reply_as user r, w')
  serve (now, login_call email password) w =
      let (r, w') = login t l email password (record w { now = now }) in (reply_as tokens r, w')
  serve (now, refresh_call token) w =
      let (r, w') = refresh t l token (record w { now = now }) in (reply_as tokens r, w')

  -- The times and the replies, and the state in the end.
  abbrev pub serve_all : List (ℕ × Call) → World S D → List (ℕ × Result Reply) × World S D
  serve_all [] w = ([], w)
  serve_all ((now, call) ∷ calls) w =
      let (reply, w') = serve (now, call) w in
      let (replies, end_state) = serve_all calls w' in ((now, reply) ∷ replies, end_state)

-- The last token that was issued to each user.
abbrev pub Ledger : Type 0
Ledger = ℕ → Option String

module _ (l : Libraries) where
  abbrev pub subject_id : Claims → Option ℕ
  subject_id c = elim c.sub [ none ↦ none | some sub ↦ l.uuid_of sub ]

  abbrev pub enter : Option ℕ → String → Ledger → Ledger
  enter none token ledger k = ledger k
  enter (some id) token ledger k = if k == id then some token else ledger k

  abbrev pub owner : Option Claims → Option ℕ
  owner none = none
  owner (some c) = subject_id c

  -- A reply with tokens is entered for the user whom its refresh token names.
  abbrev pub note : ℕ → Result Reply → Ledger → Ledger
  note now (ok (tokens r)) ledger =
      enter (owner (l.decode now r.refresh_token)) r.refresh_token ledger
  note now (ok (user u)) ledger = ledger
  note now (err e) ledger = ledger

  abbrev pub ledger_of : List (ℕ × Result Reply) → Ledger → Ledger
  ledger_of [] ledger = ledger
  ledger_of ((now, reply) ∷ replies) ledger = ledger_of replies (note now reply ledger)

  abbrev pub is_last : String → Ledger → Option ℕ → Bool
  is_last token ledger none = false
  is_last token ledger (some id) = elim (ledger id) [ none ↦ false | some last ↦ str_eq last token ]

  abbrev pub accepts_claims : String → Ledger → Option Claims → Bool
  accepts_claims token ledger none = false
  accepts_claims token ledger (some c) = has_type "refresh" c && is_last token ledger (subject_id c)

  -- A token that is signed and has not expired, of the type "refresh", and the last of its user.
  abbrev pub accepts : ℕ → String → Ledger → Bool
  accepts now token ledger = accepts_claims token ledger (l.decode now token)
