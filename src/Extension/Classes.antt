-- ===== src/Extension/Classes.antt =====
-- The registrations of ext/aws_crt/src: lib.rs, init; cbor.rs, init and the lookup of the exception
-- classes; error.rs, define_http_errors and exception_class; pool.rs, define_connection_pool;
-- s3_ruby.rs, define_s3_client.
use aws_crt.Prelude.{◌≡◌, refl, Option, none, some, String, List, ℕ, true, if◌then◌else◌}
use aws_crt.Prelude.Int.{ℤ, pos, negsuc}
use aws_crt.Extension.Vm.{Vm}
use aws_crt.Extension.World.{
  CborStatics, HttpStatics, returned, M, ◌>>=◌, ◌>>◌, or_raise, or_panic, define_module,
  define_class, define_method, define_module_function, define_alloc_func, read, change_cbor,
  set_http,
}
use aws_crt.Cbor.Result
use aws_crt.Error.{
  ExceptionClass, error, connection_error, timeout_error, tls_error, proxy_error, classify_error,
}

-- The number of arguments -1, for any.
abbrev any_args : ℤ
any_args = negsuc 0

-- The name under which the error of a decoder or an encoder is looked up; an exception that a call
-- into Ruby raised has its own class.
unfoldable pub class_name : Result.Error → Option String
class_name (Result.out_of_bytes n k) = some "OutOfBytesError"
class_name (Result.extra_bytes n) = some "ExtraBytesError"
class_name (Result.unknown_type c) = some "UnknownTypeError"
class_name (Result.unexpected_additional_info n) = some "UnexpectedAdditionalInformationError"
class_name Result.unexpected_break_code = some "UnexpectedBreakCodeError"
class_name (Result.reserved_info n) = some "Error"
class_name (Result.expected_integer n) = some "Error"
class_name (Result.expected_pair n) = some "Error"
class_name (Result.invalid_bignum_tag n) = some "Error"
class_name (Result.raised m) = none

module _ (vm : Vm) where
  -- const_get of a module or of an exception class.
  unfoldable pub get_module : vm.Object → String → vm.State → Option (vm.Object)
  get_module p n s = elim (vm.const_get p n s) [
    | none ↦ none
    | some m ↦ if vm.is_module m s then some m else none
  ]

  unfoldable pub exception_from : vm.State → vm.Object → Option (vm.Object)
  exception_from s c = if vm.is_exception c s then some c else none

  unfoldable pub get_exception : vm.Object → String → vm.State → Option (vm.Object)
  get_exception p n s = elim (vm.const_get p n s) [ none ↦ none | some c ↦ exception_from s c ]

  pub get_module-eq :
      {p m : vm.Object} {n : String} {s : vm.State}
      → vm.const_get p n s ≡ some m
      → vm.is_module m s ≡ true
      → get_module p n s ≡ some m
  unfolding get_module
  get_module-eq h k = rw (h, get_module) (rw k refl)

  pub get_exception-eq :
      {p c : vm.Object} {n : String} {s : vm.State}
      → vm.const_get p n s ≡ some c
      → vm.is_exception c s ≡ true
      → get_exception p n s ≡ some c
  unfolding get_exception exception_from
  get_exception-eq h k = rw (h, get_exception) (rw (k, exception_from) refl)

  unfoldable pub get_cbor_module : M vm (vm.Object)
  get_cbor_module = do
    aws_crt ← read (get_module (vm.class_object) "AwsCrt")
    m ← or_panic aws_crt
    cbor ← read (get_module m "Cbor")
    or_panic cbor

  unfoldable pub cbor_error_class : String → M vm (vm.Object)
  cbor_error_class n = do m ← get_cbor_module; c ← read (get_exception m n); or_panic c

  unfoldable pub exception_class : Option (vm.Object) → M vm (vm.Object)
  exception_class none w = or_panic none w
  exception_class (some c) w = or_panic (exception_from (w.ruby) c) w

  -- The static that classify_error reads.
  unfoldable pub cached : ExceptionClass → HttpStatics (vm.Object) → Option (vm.Object)
  cached error st = st.http_error
  cached connection_error st = st.http_connection_error
  cached timeout_error st = st.http_timeout_error
  cached tls_error st = st.http_tls_error
  cached proxy_error st = st.http_proxy_error

  -- The class of the exception that a CRT error of this name becomes.
  unfoldable pub crt_error_class : List ℕ → M vm (vm.Object)
  crt_error_class name w = exception_class (cached (classify_error name) (w.statics.http)) w

  abbrev keep_bigdecimal : Option (vm.Object) → CborStatics (vm.Object) → CborStatics (vm.Object)
  keep_bigdecimal none st = st
  keep_bigdecimal (some c) st = record st { bigdecimal_class = some c; bigdecimal_loaded = true }

  unfoldable pub cache_classes : M vm (Unit {0})
  cache_classes = do
    found ← read (vm.eval "Time")
    time ← or_panic found
    change_cbor (λ st. record st { time_class = time })
    found' ← read (vm.eval "defined?(BigDecimal) ? BigDecimal : nil")
    decimal ← or_panic found'
    change_cbor (keep_bigdecimal decimal)
    change_cbor (λ st. record st {
      utf8_encindex = vm.utf8_encindex;
      binary_encindex = vm.ascii8bit_encindex;
    })

  -- cbor.rs, init, in its four parts.
  unfoldable pub define_cbor_errors : vm.Object → M vm (Unit {0})
  define_cbor_errors cbor = do
    found ← read (vm.eval "StandardError")
    found' ← or_raise found
    std_error ← or_raise found'
    error_class ← define_class cbor "Error" std_error
    c₁ ← define_class cbor "OutOfBytesError" error_class
    c₂ ← define_class cbor "ExtraBytesError" error_class
    c₃ ← define_class cbor "UnknownTypeError" error_class
    c₄ ← define_class cbor "UnexpectedAdditionalInformationError" error_class
    c₅ ← define_class cbor "UnexpectedBreakCodeError" error_class
    λ w. returned tt w

  unfoldable pub define_tagged : vm.Object → M vm (Unit {0})
  define_tagged cbor = do
    tagged ← define_class cbor "Tagged" (vm.class_object)
    define_alloc_func tagged
    define_method tagged "initialize" (pos 2)
    define_method tagged "tag" (pos 0)
    define_method tagged "value" (pos 0)
    change_cbor (λ st. record st { tagged_class = some tagged })
    cache_classes

  unfoldable pub define_coders : vm.Object → M vm (Unit {0})
  define_coders cbor = do
    encoder_class ← define_class cbor "Encoder" (vm.class_object)
    define_alloc_func encoder_class
    define_method encoder_class "initialize" (pos 0)
    define_method encoder_class "add" (pos 1)
    define_method encoder_class "bytes" (pos 0)
    decoder_class ← define_class cbor "Decoder" (vm.class_object)
    define_alloc_func decoder_class
    define_method decoder_class "initialize" (pos 1)
    define_method decoder_class "decode" (pos 0)
    define_module_function cbor "encode" (pos 1)
    define_module_function cbor "decode" (pos 1)

  unfoldable pub cbor_init : vm.Object → M vm (Unit {0})
  cbor_init aws_crt = do
    cbor ← define_module aws_crt "Cbor"
    define_cbor_errors cbor
    define_tagged cbor
    define_coders cbor

  unfoldable pub define_http_errors : vm.Object → M vm (Unit {0})
  define_http_errors http_module = do
    found ← read (get_module (vm.class_object) "AwsCrt")
    aws_crt_module ← or_raise found
    found' ← read (get_exception aws_crt_module "Error")
    base_error ← or_raise found'
    e ← define_class http_module "Error" base_error
    connection ← define_class http_module "ConnectionError" e
    timeout ← define_class http_module "TimeoutError" e
    tls ← define_class http_module "TlsError" e
    proxy ← define_class http_module "ProxyError" e
    set_http (record {
      http_error = some e;
      http_connection_error = some connection;
      http_timeout_error = some timeout;
      http_tls_error = some tls;
      http_proxy_error = some proxy;
    })

  unfoldable pub define_connection_pool : vm.Object → M vm (Unit {0})
  define_connection_pool http_module = do
    c ← define_class http_module "ConnectionPool" (vm.class_object)
    define_alloc_func c
    define_method c "initialize" any_args
    define_method c "request" any_args

  unfoldable pub define_s3_client : vm.Object → M vm (Unit {0})
  define_s3_client s3_module = do
    c ← define_class s3_module "Client" (vm.class_object)
    define_alloc_func c
    define_method c "initialize" (pos 1)
    define_method c "get_object" (pos 1)
    define_method c "put_object" (pos 1)

  -- lib.rs, init, with init_crt in front, which only the C library sees.
  unfoldable pub define_checksums : vm.Object → M vm (Unit {0})
  define_checksums m = do
    checksums ← define_module m "Checksums"
    define_module_function checksums "crc32" any_args
    define_module_function checksums "crc32c" any_args
    define_module_function checksums "crc64nvme" any_args

  unfoldable pub define_http : vm.Object → M vm (Unit {0})
  define_http m = do
    http ← define_module m "Http"
    define_http_errors http
    define_connection_pool http

  unfoldable pub define_s3 : vm.Object → M vm (Unit {0})
  define_s3 m = do s3 ← define_module m "S3"; define_s3_client s3

  unfoldable pub init : M vm (Unit {0})
  init = do
    m ← define_module (vm.class_object) "AwsCrt"
    define_checksums m
    cbor_init m
    define_http m
    define_s3 m
