-- ===== src/S3/Ruby/Fetched.antt =====
-- What a lookup in the headers of a reply of ext/aws_crt/src/s3_ruby.rs finds.
use aws_crt.Prelude.{
  Bool, Bool-cases, List, Option, [], and-left, and-right, ap, arith, false, if◌then◌else◌, inl,
  inr, none, refl, same_bytes, some, sym, true, ℕ, ◌==◌, ◌∙◌, ◌∷◌, ◌≡◌,
}
use aws_crt.Http.State.{Header}
use aws_crt.S3.Ruby.Reply.{aset, fetch, last_value, or_later, store_headers}

same_bytes_self : (s : List ℕ) → same_bytes s s ≡ true
unfolding same_bytes
same_bytes_self [] = refl
same_bytes_self (c ∷ s) = let e : (c == c) ≡ true = ground arith in rw (e, same_bytes_self s) refl

same_bytes-path : (s t : List ℕ) → same_bytes s t ≡ true → s ≡ t
unfolding same_bytes
same_bytes-path [] [] e = refl
same_bytes-path [] (d ∷ t) e = cc
same_bytes-path (c ∷ s) [] e = cc
same_bytes-path (c ∷ s) (d ∷ t) e =
    let f : (c == d) ≡ true = and-left (c == d) _ e in
    let p : c ≡ d = ground arith in
    let q : s ≡ t = same_bytes-path s t (and-right (c == d) _ e) in cc

same_bytes-other :
    (n name wanted : List ℕ)
    → same_bytes n name ≡ false
    → same_bytes n wanted ≡ true
    → same_bytes name wanted ≡ false
same_bytes-other n name wanted e f = elim (Bool-cases (same_bytes name wanted)) [
  | inl g ↦
      let p : n ≡ name = same_bytes-path n wanted f ∙ sym (same_bytes-path name wanted g) in
      let h : same_bytes n name ≡ true = rw p (same_bytes_self name) in cc
  | inr g ↦ g
]

-- A lookup behind a store finds the new value under its name, and elsewhere what was there.
fetch-aset :
    (wanted name text : List ℕ) (hash : List Header)
    → fetch wanted (aset name text hash)
      ≡ (if same_bytes name wanted then some text else fetch wanted hash)
unfolding fetch aset
fetch-aset wanted name text [] = refl
fetch-aset wanted name text ((n, t) ∷ rest) = elim (Bool-cases (same_bytes n name)) [
  | inl e ↦ elim (Bool-cases (same_bytes name wanted)) [
    | inl f ↦
        let g : same_bytes n wanted ≡ true = rw (same_bytes-path n name e) f in rw (e, f, g) refl
    | inr f ↦
        let g : same_bytes n wanted ≡ false = rw (same_bytes-path n name e) f in rw (e, f, g) refl
  ]
  | inr e ↦ elim (Bool-cases (same_bytes n wanted)) [
    | inl f ↦ rw (e, f, same_bytes-other n name wanted e f) refl
    | inr f ↦ rw (e, f, fetch-aset wanted name text rest) refl
  ]
]

-- Every name that a hash of headers is asked for: the value of its last header, and of the hash before
-- where no header has the name.
fetch-store_headers :
    (wanted : List ℕ) (hash hs : List Header)
    → fetch wanted (store_headers hash hs) ≡ or_later (fetch wanted hash) (last_value wanted hs)
unfolding store_headers
fetch-store_headers wanted hash [] = refl
fetch-store_headers wanted hash ((n, t) ∷ rest) =
    fetch-store_headers wanted (aset n t hash) rest
    ∙ ap (λ v. or_later v (last_value wanted rest)) (fetch-aset wanted n t hash)
    ∙ later (same_bytes n wanted) (fetch wanted hash) (last_value wanted rest)
  where
    later :
        (b : Bool) (before after : Option (List ℕ))
        → or_later (if b then some t else before) after
          ≡ or_later before (or_later (if b then some t else none) after)
    later true before none = refl
    later true before (some u) = refl
    later false before none = refl
    later false before (some u) = refl

-- Asked for any name, the hash of a reply has the value of the last header with the name, and none
-- where no header has it.
pub fetch-last_value :
    (wanted : List ℕ) (hs : List Header) → fetch wanted (store_headers [] hs) ≡ last_value wanted hs
unfolding fetch
fetch-last_value wanted hs = fetch-store_headers wanted [] hs ∙ none_before (last_value wanted hs)
  where
    none_before : (v : Option (List ℕ)) → or_later none v ≡ v
    none_before none = refl
    none_before (some u) = refl
