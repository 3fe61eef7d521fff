-- ===== src/Extension/Tests.antt =====
-- The theorems on the registration of ext/aws_crt/src in the small Ruby.
mod Small
use aws_crt.Prelude.{
  ◌≡◌, refl, ◌∙◌, ℕ, Bool, true, false, ◌&&◌, if◌then◌else◌, Option, none, some, String, List, [],
  ◌∷◌, ◌++◌, codes, inl, inr, Option-cases, Bool-cases,
}
use aws_crt.Cbor.Result
use aws_crt.Error.{classify_error}
use aws_crt.Extension.Vm.{Vm, Extends, Laws}
use aws_crt.Extension.World.{
  World, Ended, returned, raised, panicked, or_raise, or_panic, initial_statics, define_module,
  define_class, define_method, define_module_function, define_alloc_func, change_cbor, set_http,
}
use aws_crt.Extension.Classes.{
  class_name, cbor_error_class, crt_error_class, init, define_checksums, cbor_init,
  define_cbor_errors, define_tagged, cache_classes, define_coders, define_http, define_http_errors,
  define_connection_pool, define_s3, define_s3_client, get_module, get_exception, exception_from,
}
use aws_crt.Extension.Facts.{Kept-refl}
use aws_crt.Extension.Inherits.{Descends}
use aws_crt.Extension.HttpClasses.{http_name, BaseError}
use aws_crt.Extension.Registered.{init-cbor_error_class, init-crt_error_class}
use aws_crt.Extension.Tests.Small.{
  Thing, class_object, standard_error, module_at, class_at, find, is_at, same, is_module_thing,
  is_exception_thing, super, evaluated, given, add_module, add_class, small, small_laws,
}

abbrev aws_crt_thing : Thing
aws_crt_thing = module_at class_object "AwsCrt"

abbrev base_thing : Thing
base_thing = class_at aws_crt_thing "Error" standard_error

-- What lib/aws_crt.rb defines before it loads the extension.
abbrev before : World small
before = record { ruby = aws_crt_thing ∷ base_thing ∷ []; statics = initial_statics }

before-BaseError : BaseError aws_crt_thing base_thing before
unfolding find is_at same is_module_thing is_exception_thing
before-BaseError = record {
  aws_crt = refl;
  aws_crt_module = refl;
  named = refl;
  base_exception = refl;
}

left : Ended small (Unit {0}) → World small
left (returned _ w) = w
left (raised w) = w
left (panicked w) = w

abbrev loaded : World small
loaded = left (init small before)

before-loaded : init small before ≡ returned tt loaded
unfolding init define_checksums cbor_init define_cbor_errors define_tagged cache_classes
    define_coders define_http define_http_errors define_connection_pool define_s3 define_s3_client
    get_module get_exception exception_from or_raise or_panic define_module define_class
    define_method define_module_function define_alloc_func change_cbor set_http left find is_at same
    is_module_thing is_exception_thing super evaluated given add_module add_class
before-loaded = refl

init-cbor_error_class_example :
    (c : Thing) × (cbor_error_class small "ExtraBytesError" loaded ≡ returned c loaded)
    × Descends loaded standard_error c
unfolding class_name
init-cbor_error_class_example =
    init-cbor_error_class small_laws aws_crt_thing base_thing (Result.extra_bytes 1)
      "ExtraBytesError" before-BaseError before-loaded (Kept-refl loaded) refl

init-crt_error_class_example :
    (c : Thing) × (http : Thing) × (crt_error_class small (codes "AWS_IO_TLS_ERROR") loaded
      ≡ returned c loaded)
    × (find aws_crt_thing "Http" (loaded.ruby) ≡ some http)
    × (find http (http_name (classify_error (codes "AWS_IO_TLS_ERROR"))) (loaded.ruby) ≡ some c)
    × Descends loaded base_thing c
init-crt_error_class_example =
    init-crt_error_class small_laws aws_crt_thing base_thing (codes "AWS_IO_TLS_ERROR")
      before-BaseError before-loaded (Kept-refl loaded)
