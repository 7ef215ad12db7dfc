-- ===== src/Runner/Token.antt =====
-- `CancellationToken` of packages/pipeline/runner.py. Each method runs under the token's lock, so a
-- use of the token by several threads is a sequence of calls.
use gaussian_os.Prelude.{
  String, Bool, true, false, ◌≡◌, refl, List, [], ◌∷◌, ◌==◌, string_eq, if◌then◌else◌, Option, none,
  some, arith,
}

pub record CancellationToken : Type 0 where
  pub is_cancelled : Bool
  pub reason : String

abbrev pub new_token : CancellationToken
new_token = record { is_cancelled = false; reason = "cancelled by caller" }

pub data TokenError : Type 0 where
  empty_reason : TokenError

-- `cancel`: the error that it raises, if any, and the token
unfoldable pub cancel : String → CancellationToken → Option TokenError × CancellationToken
cancel reason t =
    if reason == ""
    then (some TokenError.empty_reason, t)
    else if t.is_cancelled
    then (none, t)
    else (none, record { is_cancelled = true; reason = reason })

-- A sequence of calls, by whatever threads.
unfoldable pub cancel_all : List String → CancellationToken → CancellationToken
unfolding cancel
cancel_all [] t = t
cancel_all (reason ∷ reasons) t = cancel_all reasons (cancel reason t).1

-- The first reason that is not empty.
pub first_reason : List String → Option String
first_reason [] = none
first_reason (reason ∷ reasons) =
    let rest = first_reason reasons in if reason == "" then rest else some reason

abbrev pub shown : CancellationToken → Option String
shown t = if t.is_cancelled then some t.reason else none

cancel_all_set :
    (reasons : List String) (t : CancellationToken)
    → t.is_cancelled ≡ true
    → cancel_all reasons t ≡ t
unfolding cancel_all
cancel_all_set [] t h = refl
cancel_all_set (reason ∷ reasons) t h = ground (arith, cancel_all_set reasons t h)

-- After any calls of `cancel`, in any order, a new token is cancelled exactly if one of the reasons
-- was not empty, and it shows the first such reason for good.
pub cancel_all_first :
    (reasons : List String) → shown (cancel_all reasons new_token) ≡ first_reason reasons
unfolding cancel_all first_reason
cancel_all_first [] = refl
cancel_all_first (reason ∷ reasons) = ground (
  arith,
  cancel_all_first reasons,
  cancel_all_set reasons (record { is_cancelled = true; reason = reason }),
)
