-- ===== src/Push/State.antt =====
-- The Pusher of internal/topsrv/push.go, and what answers its calls.
use topsrv.Base.{
  zero, ltb, if◌then◌else◌, ◌%◌, ◌||◌, same, ◌+◌, ◌/◌, ◌∷◌, Option, List, suc, is_empty, [], Text,
  Bool, ℕ,
}

-- PushConfig
pub record Config : Type 0 where
  pub endpoint : Text
  pub token : Text
  pub interval : Text
  pub spool_dir : Text

pub record File : Type 0 where
  pub name : Text
  pub body : Text

pub record Request : Type 0 where
  pub url : Text
  pub headers : List (Text × Text)
  pub body : Text

-- S is the state of the providers. The directory SpoolDir/<subdir> holds `files subdir`, in the
-- order of their writing; `requests` are those that were made.
pub record Pusher (S : Type 0) : Type 0 where
  pub cfg : Config
  pub hostname : Text
  pub meta_endpoint : Text
  pub inventory_endpoint : Text
  pub providers : List S
  pub meta_providers : List (List Text)
  pub files : Text → List File
  pub requests : List Request

-- How a request ends: client.Do fails, or an answer comes with its status.
pub data Answer : Type 0 where
  no_answer : Answer
  answered : ℕ → Answer

pub data Op : Type 0 where
  mkdir glob write read : Text → Op
  remove_sent remove_unreadable drop_oldest : Text → Op

-- What stands outside, for one tick: the system calls, whether a url makes a request, the answer to
-- the n-th request, what gather gives, and time.Now().UnixMilli().
pub record Env : Type 0 where
  pub ok : Op → Bool
  pub request_ok : Text → Bool
  pub answer : ℕ → Answer
  pub gathered : Option Text
  pub now : ℕ

unfoldable pub digits : ℕ → ℕ → Text → Text
digits zero n acc = acc
digits (suc fuel) n acc =
    let rest = digits fuel (n / 10) ((b'0' + n % 10) ∷ acc) in
    if ltb n 10 then (b'0' + n) ∷ acc else rest

-- %d of an int64 that is not negative: 19 digits are the most.
unfoldable pub decimal : ℕ → Text
unfolding digits
decimal n = digits 19 n []

unfoldable pub has_suffix : Text → Text → Bool
has_suffix suf [] = is_empty suf
has_suffix suf (c ∷ s) = same suf (c ∷ s) || has_suffix suf s
