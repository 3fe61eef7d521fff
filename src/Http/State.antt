-- ===== src/Http/State.antt =====
-- The state of one request of ext/aws_crt/src/http.rs, and the log of what it takes from the CRT and
-- gives back.
use aws_crt.Prelude.{
  ℕ, List, [], ◌∷◌, Bool, true, false, Option, none, some, if◌then◌else◌, ◌==◌, ltb,
}
use aws_crt.Prelude.Int.{ℤ, pos, negsuc}

abbrev pub Header : Type 0
Header = List ℕ × List ℕ

-- A connection and the connection manager stand for pointers; `none` is the null pointer.
pub record RequestState : Type 0 where
  pub status_code : ℤ
  pub headers : List Header
  pub body : List ℕ
  pub chunks : List (List ℕ)
  pub streaming : Bool
  pub error_code : ℤ
  pub complete : Bool
  pub connection : Option ℕ
  pub manager : ℕ

pub record RequestContext : Type 0 where
  pub body_stream : Bool
  pub body_data : Option (List ℕ)
  pub response_first_byte_timeout_ms : ℕ

-- What a request takes from the CRT and has to give back.
pub data Resource : Type 0 where
  message input_stream connection_of_pool http_stream : Resource

pub data Call : Type 0 where
  acquire release : Resource → Call

-- `ℤ` tests of an error code and of a status.
abbrev pub is_zero : ℤ → Bool
is_zero (pos n) = n == 0
is_zero (negsuc n) = false

abbrev pub is_positive : ℤ → Bool
is_positive (pos n) = ltb 0 n
is_positive (negsuc n) = false

-- `if err != 0 { err } else { -1 }`
abbrev pub or_minus_one : ℤ → ℤ
or_minus_one code = if is_zero code then negsuc 0 else code

-- Which resources a log leaves in hand. The log has the newest call first.
pub record Held : Type 0 where
  pub has_message : Bool
  pub has_input_stream : Bool
  pub has_connection : Bool
  pub has_http_stream : Bool

abbrev pub nothing_held : Held
nothing_held = record {
  has_message = false;
  has_input_stream = false;
  has_connection = false;
  has_http_stream = false;
}

abbrev has : Resource → Held → Bool
has message h = h.has_message
has input_stream h = h.has_input_stream
has connection_of_pool h = h.has_connection
has http_stream h = h.has_http_stream

abbrev put : Resource → Bool → Held → Held
put message b h = record h { has_message = b }
put input_stream b h = record h { has_input_stream = b }
put connection_of_pool b h = record h { has_connection = b }
put http_stream b h = record h { has_http_stream = b }

-- Taking what is held already, and giving back what is not held, is a fault.
abbrev apply : Call → Option Held → Option Held
apply c none = none
apply (acquire r) (some h) = if has r h then none else some (put r true h)
apply (release r) (some h) = if has r h then some (put r false h) else none

abbrev pub replay : List Call → Option Held
replay [] = some nothing_held
replay (c ∷ cs) = apply c (replay cs)
