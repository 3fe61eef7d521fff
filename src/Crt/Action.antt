-- ===== src/Crt/Action.antt =====
-- Rust functions that call the CRT: they end with a value, with an Err, or with a panic, and leave a
-- log of the calls that acquire and release.
use aws_crt.Prelude.{Bool, List, [], false, if◌then◌else◌, ℕ, ◌==◌, ◌||◌, ◌∷◌}
use aws_crt.Prelude.Int.{ℤ}
use aws_crt.Crt.Resource.{Call, Resource, acquire, release}

-- The error is the code of the CrtError.
pub data Ended (A : Type 0) : Type 0 where
  returned : A → List Call → Ended A
  failed : ℤ → List Call → Ended A
  panicked : List Call → Ended A

abbrev pub log_of : {A : Type 0} → Ended A → List Call
log_of (returned a log) = log
log_of (failed code log) = log
log_of (panicked log) = log

abbrev pub M : Type 0 → Type 0
M A = List Call → Ended A

abbrev pub continue : {A B : Type 0} → Ended A → (A → M B) → Ended B
continue (returned a log) f = f a log
continue (failed code log) f = failed code log
continue (panicked log) f = panicked log

infixl 5 ◌>>=◌ ◌>>◌
unfoldable pub ◌>>=◌ : {A B : Type 0} → M A → (A → M B) → M B
◌>>=◌ m f log = continue (m log) f

abbrev pub ◌>>◌ : {B : Type 0} → M (Unit {0}) → M B → M B
m >> k = m >>= λ _. k

unfoldable pub pure : {A : Type 0} → A → M A
pure a log = returned a log

unfoldable pub fail : {A : Type 0} → ℤ → M A
fail code log = failed code log

-- A constructor of the CRT: without `made` it gave a null pointer.
unfoldable pub create : Resource → List Resource → Bool → ℤ → M (Unit {0})
create r needs made code log = if made then returned tt (acquire r needs ∷ log) else failed code log

unfoldable pub destroy : Resource → M (Unit {0})
destroy r log = returned tt (release r ∷ log)

-- A call that may return an error code.
unfoldable pub check : Bool → ℤ → M (Unit {0})
check fine code log = if fine then returned tt log else failed code log

-- The same, with r released before the return.
unfoldable pub check_or : Bool → Resource → ℤ → M (Unit {0})
check_or fine r code log = if fine then returned tt log else failed code (release r ∷ log)

-- `expect`.
unfoldable pub expect : Bool → M (Unit {0})
expect fine log = if fine then returned tt log else panicked log

abbrev pub drop_on_exit : {A : Type 0} → Resource → Ended A → Ended A
drop_on_exit r (returned a log) = returned a log
drop_on_exit r (failed code log) = failed code (release r ∷ log)
drop_on_exit r (panicked log) = panicked (release r ∷ log)

-- A value with a Drop that releases r is in scope during m, and m moves it into its result.
unfoldable pub owning : {A : Type 0} → Resource → M A → M A
owning r m log = drop_on_exit r (m log)

abbrev pub end_with : {A : Type 0} → Resource → Ended A → Ended A
end_with r (returned a log) = returned a (release r ∷ log)
end_with r (failed code log) = failed code (release r ∷ log)
end_with r (panicked log) = panicked log

-- r is released behind m, whether or not m gave an error.
unfoldable pub afterwards : {A : Type 0} → Resource → M A → M A
afterwards r m log = end_with r (m log)

abbrev pub exit_with : {A : Type 0} → Resource → Ended A → Ended A
exit_with r (returned a log) = returned a (release r ∷ log)
exit_with r (failed code log) = failed code (release r ∷ log)
exit_with r (panicked log) = panicked (release r ∷ log)

-- A value with a Drop that releases r is in scope during m, which only borrows it.
unfoldable pub scoped : {A : Type 0} → Resource → M A → M A
scoped r m log = exit_with r (m log)

abbrev pub recover_with : {A B : Type 0} → Ended A → (ℤ → B) → (A → M B) → Ended B
recover_with (returned a log) g f = f a log
recover_with (failed code log) g f = returned (g code) log
recover_with (panicked log) g f = panicked log

-- An error of m is the result, put into another form; a value goes on.
unfoldable pub recover : {A B : Type 0} → M A → (ℤ → B) → (A → M B) → M B
recover m g f log = recover_with (m log) g f

-- `CString::new` refuses a text with a zero byte.
unfoldable pub has_nul : List ℕ → Bool
has_nul [] = false
has_nul (c ∷ s) = c == 0 || has_nul s
