-- ===== src/Power/Tests.antt =====
-- The theorem on calls to mitos-power at a concrete conversation.
use mitos_session.Base.{
  Text, bytes, same_text, lit, Message, ◌≡◌, refl, ◌↔◌, ◌⊎◌, inl, inr, Bool, true, false, Option,
  none, some, [], ◌∷◌, if◌then◌else◌,
}
use mitos_session.Errors.{ok, is_ok}
use mitos_session.Power.Backends.{
  Kernel, at_end, PowerSocket, Json, await_reply, call, direct, supervised, make,
}
use mitos_session.Power.Backends.Replies.{Accepts, IsReady, call-ok_iff}

-- Replies, notices and their fields.
data Toy : Type 0 where
  answer : Bool → Toy
  notice : Toy
  word : Text → Toy
  flag : Bool → Toy

abbrev toy_get : Text → Toy → Option Toy
toy_get key (answer b) =
    if same_text key (bytes "kind")
    then some (word (bytes "response"))
    else if same_text key (bytes "ok")
    then some (flag b)
    else none
toy_get key notice = if same_text key (bytes "kind") then some (word (bytes "event")) else none
toy_get key (word w) = none
toy_get key (flag b) = none

abbrev toy_str : Toy → Option Text
toy_str (answer b) = none
toy_str notice = none
toy_str (word w) = some w
toy_str (flag b) = none

abbrev toy_bool : Toy → Option Bool
toy_bool (answer b) = none
toy_bool notice = none
toy_bool (word w) = none
toy_bool (flag b) = some b

abbrev toy_from_str : Text → Message ⊎ Toy
toy_from_str s =
    if same_text s (bytes "yes")
    then inr (answer true)
    else if same_text s (bytes "no")
    then inr (answer false)
    else if same_text s (bytes "event")
    then inr notice
    else inl (lit "not JSON" ∷ [])

abbrev toy : Json Toy
toy = record { from_str = toy_from_str; get = toy_get; as_str = toy_str; as_bool = toy_bool }

-- A blank line and an event come before the reply.
abbrev talk : Text → PowerSocket
talk reply = record {
  connecting = none;
  read_timeout = none;
  cloning = none;
  write_timeout = none;
  encoding = λ method. none;
  sending = λ method. none;
  incoming = bytes "\n" ∷ bytes "event\n" ∷ reply ∷ bytes "no\n" ∷ [];
  line_end = at_end;
}

call-ok_iff_example :
    (call toy (bytes "/run/power.sock") (talk (bytes "yes\n")) (bytes "Suspend") ≡ ok tt) ↔ (
      IsReady toy (talk (bytes "yes\n")) (bytes "Suspend")
      × Accepts toy (talk (bytes "yes\n")).incoming)
call-ok_iff_example =
    call-ok_iff toy (bytes "/run/power.sock") (talk (bytes "yes\n")) (bytes "Suspend")

accepted : call toy (bytes "/run/power.sock") (talk (bytes "yes\n")) (bytes "Suspend") ≡ ok tt
unfolding call await_reply
accepted = refl

refused : is_ok (call toy (bytes "/run/power.sock") (talk (bytes "no\n")) (bytes "Suspend")) ≡ false
unfolding call await_reply
refused = refl

-- Of the backends the supervised one suspends as the direct one does.
suspends_directly :
    (kernel : Kernel) (socket : Text → PowerSocket)
    → (make toy kernel socket [] supervised).suspend ≡ (make toy kernel socket [] direct).suspend
unfolding make
suspends_directly kernel socket = refl
