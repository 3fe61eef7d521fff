-- ===== src/Cbor/Head/Position.antt =====
-- A position in the decoder's input, seen as the bytes that follow it.
use aws_crt.Prelude.{
  ℕ, ◌+◌, ◌%◌, ◌^◌, ◌/◌, ◌-◌, ◌≤◌, ◌<◌, ◌≡◌, refl, sym, ap, ◌∙◌, List, [], ◌∷◌, ◌++◌, arith, length,
  get_or, take, drop, length-append, take-append, drop-append, drop-drop, get_or-drop, low_five,
  bit_and, ge→ltb,
}
use native.Mathlib.Nat.{le-add_right}
use aws_crt.Cbor.Result.{ok}
use aws_crt.Cbor.Head.{dec_peek, dec_take, dec_read_info}

-- `rest` is what `bytes` holds from `p` on, in an input shorter than 2 ^ 64.
pub record At (bytes : List ℕ) (p : ℕ) (rest : List ℕ) : Type 0 where
  pub inside : p + length rest ≡ length bytes
  pub suffix : drop p bytes ≡ rest
  pub small : length bytes < 2 ^ 64

pub At-start : (bytes : List ℕ) → length bytes < 2 ^ 64 → At bytes 0 bytes
At-start bytes h = record { inside = omega arith; suffix = refl; small = h }

pub At-after :
    {bytes : List ℕ} {p : ℕ} (xs ys : List ℕ) → At bytes p (xs ++ ys) → At bytes (p + length xs) ys
At-after {bytes} {p} xs ys a = record {
  inside = omega (arith, a.inside, length-append xs ys);
  suffix = sym (drop-drop p (length xs) bytes) ∙ ap (drop (length xs)) a.suffix ∙ drop-append xs ys;
  small = a.small;
}

pub At-next :
    {bytes : List ℕ} {p : ℕ} (b : ℕ) (ys : List ℕ) → At bytes p (b ∷ ys) → At bytes (p + 1) ys
At-next b ys a = At-after (b ∷ []) ys a

pub At-get :
    {bytes : List ℕ} {p : ℕ} (b : ℕ) (ys : List ℕ) → At bytes p (b ∷ ys) → get_or bytes p 0 ≡ b
At-get {bytes} {p} b ys a = get_or-drop p bytes 0 ∙ ap (λ l. get_or l 0 0) a.suffix

pub dec_peek-At :
    {bytes : List ℕ} {p : ℕ} (b : ℕ) (ys : List ℕ) → At bytes p (b ∷ ys) → dec_peek bytes p ≡ ok b
unfolding dec_peek
dec_peek-At b ys a = ground (arith, At-get b ys a, a.inside)

pub dec_take-At :
    {bytes : List ℕ} {p : ℕ} (xs ys : List ℕ)
    → At bytes p (xs ++ ys)
    → dec_take bytes p (length xs) ≡ ok (xs, p + length xs)
unfolding dec_take
dec_take-At {bytes} {p} xs ys a =
    let end : p + length xs ≤ length bytes = omega (arith, a.inside, length-append xs ys) in
    let wrap : (p + length xs) % 2 ^ 64 ≡ p + length xs = omega (arith, a.small) in
    let back : p + length xs - p ≡ length xs = omega arith in
    let read : take (length xs) (drop p bytes) ≡ xs = rw a.suffix (take-append xs ys) in
    rw wrap (rw (ge→ltb _ _ end) (rw (ge→ltb _ _ (le-add_right p (length xs))) (rw (back, read))))

pub dec_read_info-At :
    {bytes : List ℕ} {p : ℕ} (b : ℕ) (ys : List ℕ)
    → At bytes p (b ∷ ys)
    → b < 256
    → dec_read_info bytes p ≡ ok ((b / 2 ^ 5, b % 32), p + 1)
unfolding dec_read_info
dec_read_info-At b ys a h = rw (dec_take-At (b ∷ []) ys a) (rw (low_five b h))

-- A read within the input, whatever stands there.
pub dec_take_inside :
    (bytes : List ℕ) (p n : ℕ)
    → length bytes < 2 ^ 64
    → p + n ≤ length bytes
    → dec_take bytes p n ≡ ok (take n (drop p bytes), p + n)
unfolding dec_take
dec_take_inside bytes p n small h =
    let wrap : (p + n) % 2 ^ 64 ≡ p + n = omega arith in
    let back : p + n - p ≡ n = omega arith in
    rw wrap (rw (ge→ltb _ _ h) (rw (ge→ltb _ _ (le-add_right p n)) (rw back)))

get_or-take-one : (xs : List ℕ) → get_or (take 1 xs) 0 0 ≡ get_or xs 0 0
get_or-take-one [] = refl
get_or-take-one (x ∷ xs) = refl

pub dec_read_info_inside :
    (bytes : List ℕ) (p : ℕ)
    → length bytes < 2 ^ 64
    → p < length bytes
    → dec_read_info bytes p
      ≡ ok ((get_or bytes p 0 / 2 ^ 5, bit_and (get_or bytes p 0) 0x1f), p + 1)
unfolding dec_read_info
dec_read_info_inside bytes p small h =
    rw (dec_take_inside bytes p 1 small (omega arith))
      (rw (get_or-take-one (drop p bytes)) (rw (get_or-drop p bytes 0)))
