-- ===== src/Crt/Resource.antt =====
-- The reference-counted objects of the CRT that ext/aws_crt/src acquires and releases, and a log of
-- the calls that do it. The log has the newest call first.
use aws_crt.Prelude.{
  Bool, List, Option, [], false, if◌then◌else◌, none, some, true, ℕ, ◌&&◌, ◌==◌, ◌||◌, ◌∷◌,
}

pub data Resource : Type 0 where
  event_loop_group : Resource
  host_resolver : Resource
  client_bootstrap : Resource
  tls_ctx_options : Resource
  tls_ctx : Resource
  tls_connection_options : Resource
  connection_manager : Resource
  credentials_provider : Resource
  s3_client : Resource
  http_message : Resource
  input_stream : Resource
  meta_request : Resource

abbrev number : Resource → ℕ
number event_loop_group = 0
number host_resolver = 1
number client_bootstrap = 2
number tls_ctx_options = 3
number tls_ctx = 4
number tls_connection_options = 5
number connection_manager = 6
number credentials_provider = 7
number s3_client = 8
number http_message = 9
number input_stream = 10
number meta_request = 11

abbrev pub same : Resource → Resource → Bool
same r t = number r == number t

-- `acquire r needs` creates r by a call that is given pointers to `needs`, or initializes a structure on
-- the stack that owns memory.
pub data Call : Type 0 where
  acquire : Resource → List Resource → Call
  release : Resource → Call

abbrev pub elem : Resource → List Resource → Bool
elem r [] = false
elem r (t ∷ ts) = same r t || elem r ts

abbrev pub all_in : List Resource → List Resource → Bool
all_in [] held = true
all_in (r ∷ rs) held = elem r held && all_in rs held

abbrev keep_first : Resource → Option (List Resource) → Option (List Resource)
keep_first t none = none
keep_first t (some ts) = some (t ∷ ts)

-- The list without its first r.
abbrev pub remove : Resource → List Resource → Option (List Resource)
remove r [] = none
remove r (t ∷ ts) = if same r t then some ts else keep_first t (remove r ts)

-- A call with a pointer to what is not held is a fault, and so is the release of it.
abbrev apply : Call → Option (List Resource) → Option (List Resource)
apply c none = none
apply (acquire r needs) (some held) = if all_in needs held then some (r ∷ held) else none
apply (release r) (some held) = remove r held

-- What the calls of a log leave held, over what was held before them.
abbrev pub replay : List Resource → List Call → Option (List Resource)
replay held [] = some held
replay held (c ∷ cs) = apply c (replay held cs)
