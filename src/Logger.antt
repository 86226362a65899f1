-- ===== src/Logger.antt =====
-- Logger.h. A message is its text, a list of characters; `debug` says whether the library is built
-- with `DEBUG`.
use parlo_plus_plus.Common.{
  ℕ, ◌≡◌, refl, ap, ◌∙◌, Bool, true, false, List, [], ◌∷◌, ◌++◌, map, append-nil, append_assoc,
  if◌then◌else◌, arith,
}

-- The enumerators have the values 1 to 4.
pub data LogLevel : Type 0 where
  error warn info verbose : LogLevel

pub record LogMessage : Type 0 where
  pub message : List ℕ
  pub level : LogLevel

-- What comes of a message: the handler gets it, or its text goes to the standard output.
pub data Logged : Type 0 where
  handed : LogMessage → Logged
  printed : List ℕ → Logged

-- `handled`: whether `onMessageLogged` holds a function. `logged` is what came of messages so far.
pub record Logger : Type 0 where
  pub debug : Bool
  pub handled : Bool
  pub logged : List Logged

-- `Log`
unfoldable pub log : List ℕ → LogLevel → Logger → Logger
log message level l =
    let msg : LogMessage = record { message = message; level = level } in
    if l.debug
    then record l {
      logged = l.logged ++ ((if l.handled then handed msg else printed msg.message) ∷ []);
    }
    else l

unfoldable pub log_all : List LogMessage → Logger → Logger
unfolding log
log_all [] l = l
log_all (m ∷ ms) l = log_all ms (log m.message m.level l)

log_on :
    (m : LogMessage) (l : Logger)
    → l.debug ≡ true
    → l.handled ≡ true
    → log m.message m.level l ≡ record l { logged = l.logged ++ (handed m ∷ []) }
unfolding log
log_on m l on given = ground arith

log_off : (m : LogMessage) (l : Logger) → l.debug ≡ false → log m.message m.level l ≡ l
unfolding log
log_off m l off = ground arith

-- In a build with `DEBUG`, and with a handler, exactly the messages reach the handler, in order and
-- with their levels.
pub log_all-logged :
    (ms : List LogMessage) (l : Logger)
    → l.debug ≡ true
    → l.handled ≡ true
    → (log_all ms l).logged ≡ l.logged ++ map handed ms
unfolding log_all
log_all-logged [] l on given = rw (append-nil l.logged) refl
log_all-logged (m ∷ ms) l on given =
    ap (λ k. (log_all ms k).logged) (log_on m l on given)
    ∙ log_all-logged ms (record l { logged = l.logged ++ (handed m ∷ []) }) on given
    ∙ append_assoc l.logged (handed m ∷ []) (map handed ms)

-- In a build without `DEBUG` nothing is logged.
pub log_all_silent : (ms : List LogMessage) (l : Logger) → l.debug ≡ false → log_all ms l ≡ l
unfolding log_all
log_all_silent [] l off = refl
log_all_silent (m ∷ ms) l off = ap (log_all ms) (log_off m l off) ∙ log_all_silent ms l off
