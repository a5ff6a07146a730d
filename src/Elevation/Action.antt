-- ===== src/Elevation/Action.antt =====
-- src/elevation/action.rs: what the caller of an elevation supplies for display, and the answer.
-- The `&'static str` errors of `validate` are messages.
use mitos_session.Base.{
  ℕ, ◌≤◌, ◌≡◌, ◌↔◌, false, Option, none, some, [], ◌∷◌, arith, ltb, if◌then◌else◌, length, is_empty,
  Text, lit, Message,
}

pub data ElevationRisk : Type 0 where
  elevated critical : ElevationRisk

pub record ElevationAction : Type 0 where
  pub requesting_app : Text
  pub description : Text
  pub risk : ElevationRisk
  pub duration_label : Text

abbrev pub max_label_len : ℕ
max_label_len = 256

-- `Result<(), &'static str>`: the text of the error, if there is one.
unfoldable pub validate : ElevationAction → Option Message
validate a =
    if is_empty a.requesting_app
    then some (lit "requesting_app must not be empty" ∷ [])
    else if ltb max_label_len (length a.requesting_app)
    then some (lit "requesting_app exceeds the maximum label length" ∷ [])
    else if is_empty a.description
    then some (lit "description must not be empty" ∷ [])
    else if ltb max_label_len (length a.description)
    then some (lit "description exceeds the maximum label length" ∷ [])
    else if ltb max_label_len (length a.duration_label)
    then some (lit "duration_label exceeds the maximum label length" ∷ [])
    else none

pub data ElevationResponse : Type 0 where
  password : Text → ElevationResponse
  cancelled : ElevationResponse

is_empty_iff : (t : Text) → (is_empty t ≡ false) ↔ (1 ≤ length t)
is_empty_iff [] = ground arith
is_empty_iff (x ∷ t) = ground arith

-- An action passes exactly when each label fits, and the first two are not empty.
pub validate-none_iff :
    (a : ElevationAction)
    → (validate a ≡ none) ↔ (
        (1 ≤ length a.requesting_app)
        × (length a.requesting_app ≤ 256)
        × (1 ≤ length a.description)
        × (length a.description ≤ 256)
        × (length a.duration_label ≤ 256))
unfolding validate
validate-none_iff a = (
  λ h. ground (arith, is_empty_iff a.requesting_app, is_empty_iff a.description),
  λ h. ground (arith, is_empty_iff a.requesting_app, is_empty_iff a.description),
)
