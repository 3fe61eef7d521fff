-- ===== src/Pool/Tests.antt =====
-- The pool of ext/aws_crt/src/pool.rs at some inputs: endpoints, calls of initialize, requests with a
-- block, and requests in several threads.
use aws_crt.Prelude.{
  Bool, false, if◌then◌else◌, List, ℕ, none, [], some, arith, length, ◌<◌, ◌↔◌, codes, refl,
  same_bytes, true, ◌++◌, ◌∷◌, ◌≡◌,
}
use aws_crt.Http.Callbacks.{parse_digits, parse_unsigned, to_ascii_lowercase}
use aws_crt.Http.Run.{streamed}
use aws_crt.Http.Tests.{
  built_request, good_messages, options, streamed_end, streamed_returned, streamed_trace,
}
use aws_crt.Pool.Endpoint.{
  endpoint, https, invalid_port, parse_endpoint, parse_host, read_scheme, rejected, rsplit_once,
  trim_end_slashes,
}
use aws_crt.Pool.Endpoint.Parsed.{prefix}
use aws_crt.Pool.Endpoint.Printed.{written, parse_endpoint-written}
use aws_crt.Pool.Endpoint.Port.{BadPort, parse_endpoint-invalid_port}
use aws_crt.Pool.Endpoint.Bounds.{Accepted, parse_endpoint-Accepted}
use aws_crt.Http.Trace.Heads.{all_headers, first_headers, first_status}
use aws_crt.Pool.Reply.{rb_request_reply}
use aws_crt.Crt.Resource.{client_bootstrap}
use aws_crt.Crt.Action.{has_nul}
use aws_crt.Crt.Runs.{Settled}
use aws_crt.Connection.Tests.{answers}
use aws_crt.Pool.Object.{default_pool, drop_inner}
use aws_crt.Pool.Options.{
  Ruby, read_options, value, options_for, parse_proxy_options, hash_get_string, or_default,
  proxy_from_hash, hash_get_u32, hash_get_u64, hash_get_usize, hash_get_bool,
}
use aws_crt.Pool.Object.Repeated.{Held, Initialize, initialize_all}
use aws_crt.Pool.Object.Latest.{Serves, last_endpoint, initialize_all_then_collect}
use aws_crt.Pool.Shared.{SharedPool, new_pool, begin_request, end_request, store_manager, panicked}
use aws_crt.Pool.Shared.Safe.{IsSafe, Reaches, Step, Reaches-IsSafe, Reaches-panicked}
use aws_crt.Pool.Streamed.{Replied, returned-Replied}

parse_endpoint-written_example :
    parse_endpoint (written (endpoint https (codes "[::1]") 443))
    ≡ endpoint https (codes "[::1]") 443
unfolding parse_endpoint parse_host read_scheme rsplit_once trim_end_slashes to_ascii_lowercase
    same_bytes parse_unsigned parse_digits codes
parse_endpoint-written_example = parse_endpoint-written (codes "HTTPS://[::1]//:+0443") refl

parse_endpoint-invalid_port_example :
    (parse_endpoint (prefix https ++ codes "[::1]") ≡ rejected invalid_port)
    ↔ BadPort (codes "[::1]")
parse_endpoint-invalid_port_example = parse_endpoint-invalid_port https (codes "[::1]")

-- An IPv6 address without a port.
ipv6_refused : parse_endpoint (codes "https://[::1]") ≡ rejected invalid_port
unfolding parse_endpoint parse_host read_scheme rsplit_once to_ascii_lowercase same_bytes
    parse_unsigned parse_digits codes
ipv6_refused = refl

upper_case_scheme : parse_endpoint (codes "HTTPS://h///") ≡ endpoint https (codes "h") 443
unfolding parse_endpoint parse_host read_scheme rsplit_once trim_end_slashes to_ascii_lowercase
    same_bytes codes
upper_case_scheme = refl

parse_endpoint-Accepted_example : Accepted (parse_endpoint (codes "https://:4294967296"))
parse_endpoint-Accepted_example = parse_endpoint-Accepted (codes "https://:4294967296")

-- The hash true has the key proxy, whose value is the hash false, and that one has the key host.
abbrev proxy_option : Ruby (List ℕ) Bool
proxy_option = record {
  lookup = λ hash key.
      value
        (if same_bytes key (if hash then codes "proxy" else codes "host") then some key else none);
  is_nil = λ v. false;
  to_text = λ v. value v;
  to_unsigned = λ bound v. value 0;
  to_bool = λ v. value true;
  from_value = λ v. some false;
}

abbrev initialize_at : List ℕ → Initialize Bool
initialize_at text = record { answers = answers; endpoint = text; options = true }

-- With TLS, then without, then with an endpoint that is refused, then with TLS again.
abbrev four_calls : List (Initialize Bool)
four_calls =
    initialize_at (codes "https://h")
    ∷ initialize_at (codes "http://h")
    ∷ initialize_at (codes "ftp://h")
    ∷ initialize_at (codes "https://h")
    ∷ []

initialize_all_then_collect_example :
    Serves
      (last_endpoint proxy_option four_calls default_pool [] none)
      ((initialize_all proxy_option four_calls default_pool []).0.inner)
    × Held
        (client_bootstrap ∷ [])
        (client_bootstrap ∷ [])
        (initialize_all proxy_option four_calls default_pool [])
    × Settled (client_bootstrap ∷ []) (client_bootstrap ∷ []) (client_bootstrap ∷ []) (
        drop_inner
          ((initialize_all proxy_option four_calls default_pool []).0.inner)
          ((initialize_all proxy_option four_calls default_pool []).1))
unfolding read_options options_for parse_proxy_options proxy_from_hash hash_get_string hash_get_u32
    hash_get_u64 hash_get_usize hash_get_bool or_default parse_endpoint parse_host read_scheme
    rsplit_once trim_end_slashes to_ascii_lowercase same_bytes has_nul codes
initialize_all_then_collect_example =
    initialize_all_then_collect proxy_option four_calls refl (refl, (refl, (tt, (refl, tt))))

returned-Replied_example :
    Replied
      (first_status streamed_trace)
      (first_headers streamed_trace)
      (all_headers streamed_trace)
      (rb_request_reply (streamed_end.caller.yields) streamed)
returned-Replied_example =
    returned-Replied good_messages (options true) (built_request true) refl streamed_trace
      streamed_returned

-- A request is in flight when another initialize comes, which panics.
abbrev busy_pool : SharedPool
busy_pool = record {
  inner = some 7;
  read_timeout_ms = 500;
  borrows = 1;
  in_flight = record { manager = 7; read_timeout_ms = 500 } ∷ [];
  live = 7 ∷ [];
}

busy_pool-reached : Reaches new_pool busy_pool
unfolding begin_request end_request store_manager
busy_pool-reached =
    Reaches.next
      (Reaches.next
        (Reaches.next
          (Reaches.next
            (Reaches.next (Reaches.next Reaches.here (Step.request _)) (Step.initialize 7 500 _))
            (Step.request _))
          (Step.initialize 8 9 _))
        (Step.request _))
      (Step.ends 0 _ (omega arith))

Reaches-IsSafe_example : IsSafe busy_pool
Reaches-IsSafe_example = Reaches-IsSafe busy_pool-reached

Reaches-panicked_example :
    ((store_manager 8 9 busy_pool).1 ≡ panicked) ↔ (0 < length (busy_pool.in_flight))
Reaches-panicked_example = Reaches-panicked 8 9 busy_pool-reached
