-- ===== src/Pool/Shared.antt =====
-- One AwsCrt::Http::ConnectionPool of ext/aws_crt/src/pool.rs in several threads of Ruby. A method runs
-- under Ruby's lock, which http.rs gives up while a request waits; a block that a request calls may call
-- the pool again. A step is what one method does between two such points. `inner` is a RefCell: a request
-- borrows it until it has ended, and initialize panics where it is borrowed.
pub mod Safe
use aws_crt.Prelude.{ℕ, zero, suc, ◌+◌, ◌-◌, ◌==◌, if◌then◌else◌, Option, none, some, List, [], ◌∷◌}

-- What a request took from the pool: the manager's pointer and the timeout.
pub record Taken : Type 0 where
  pub manager : ℕ
  pub read_timeout_ms : ℕ

pub record SharedPool : Type 0 where
  pub inner : Option ℕ
  pub read_timeout_ms : ℕ
  -- RefCell's count of the shared borrows of `inner`.
  pub borrows : ℕ
  -- The requests that have begun and not ended.
  pub in_flight : List Taken
  -- The managers that were made for this pool and not released.
  pub live : List ℕ

abbrev pub new_pool : SharedPool
new_pool = record { inner = none; read_timeout_ms = 0; borrows = 0; in_flight = []; live = [] }

pub data Ended : Type 0 where
  returned raised panicked : Ended

abbrev pub without : ℕ → List ℕ → List ℕ
without m [] = []
without m (k ∷ ks) = if m == k then ks else k ∷ without m ks

abbrev pub release_inner : Option ℕ → List ℕ → List ℕ
release_inner none live = live
release_inner (some m) live = without m live

abbrev pub begin_with : Option ℕ → SharedPool → SharedPool × Ended
begin_with none s = (s, raised)
begin_with (some m) s = (
  record s {
    borrows = s.borrows + 1;
    in_flight = record { manager = m; read_timeout_ms = s.read_timeout_ms } ∷ s.in_flight;
  },
  returned,
)

-- The beginning of rb_request. The borrow of a pool without a manager ends with the exception.
unfoldable pub begin_request : SharedPool → SharedPool × Ended
begin_request s = begin_with (s.inner) s

abbrev pub drop_at : ℕ → List Taken → List Taken
drop_at n [] = []
drop_at zero (t ∷ ts) = ts
drop_at (suc n) (t ∷ ts) = t ∷ drop_at n ts

-- The end of the n-th request in flight, with a value or an exception: the borrow ends.
unfoldable pub end_request : ℕ → SharedPool → SharedPool
end_request n s = record s { borrows = s.borrows - 1; in_flight = drop_at n (s.in_flight) }

-- The end of rb_initialize with a new manager. Where `inner` is borrowed it panics, and the new manager
-- is dropped.
unfoldable pub store_manager : ℕ → ℕ → SharedPool → SharedPool × Ended
store_manager m timeout s =
    if s.borrows == 0
    then (
      record s {
        inner = some m;
        read_timeout_ms = timeout;
        live = m ∷ release_inner (s.inner) (s.live);
      },
      returned,
    )
    else (s, panicked)

-- The object is collected.
unfoldable pub collect : SharedPool → SharedPool
collect s = record s { inner = none; live = release_inner (s.inner) (s.live) }
