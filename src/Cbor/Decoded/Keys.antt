-- ===== src/Cbor/Decoded/Keys.antt =====
-- The keys of a hash that the decoder of ext/aws_crt/src/cbor.rs fills by hash_aset: each stands once,
-- so that setting them again one after the other gives the same hash.
use aws_crt.Prelude.{
  ℕ, ◌+◌, ◌^◌, ◌≤◌, ◌<◌, ◌≡◌, refl, arith, false, List, [], ◌∷◌, length, same_bytes, inl, inr,
  Bool-cases, ap, sym, ◌∙◌,
}
use aws_crt.Cbor.Value.{Value, Pairs, utf8, str, count_pairs, hash_aset}
use aws_crt.Cbor.Calls.{Calls}
use aws_crt.Cbor.Decoded.Shape.{NewKey, Shape, ShapePairs}

same_bytes_comm : (xs ys : List ℕ) → same_bytes xs ys ≡ same_bytes ys xs
unfolding same_bytes
same_bytes_comm [] [] = refl
same_bytes_comm [] (y ∷ ys) = refl
same_bytes_comm (x ∷ xs) [] = refl
same_bytes_comm (x ∷ xs) (y ∷ ys) = ground (arith, same_bytes_comm xs ys)

module _ {Time Decimal : Type 0} where
  hash_aset-NewKey :
      (j k : List ℕ) (v : Value Time Decimal) {ps : Pairs Time Decimal}
      → same_bytes k j ≡ false
      → NewKey j ps
      → NewKey j (hash_aset k v ps)
  unfolding hash_aset
  hash_aset-NewKey j k v e NewKey.no_pairs = NewKey.pair e NewKey.no_pairs
  hash_aset-NewKey j k v e (NewKey.pair {j = i} d n) = elim (Bool-cases (same_bytes i k)) [
    | inl h ↦ rw h (NewKey.pair d n)
    | inr h ↦ rw h (NewKey.pair d (hash_aset-NewKey j k v e n))
  ]

  -- A pair at the end.
  abbrev snoc : Pairs Time Decimal → List ℕ → Value Time Decimal → Pairs Time Decimal
  snoc Pairs.no_pairs k v = Pairs.pair (str utf8 k) v Pairs.no_pairs
  snoc (Pairs.pair j w ps) k v = Pairs.pair j w (snoc ps k v)

  abbrev append_pairs : Pairs Time Decimal → Pairs Time Decimal → Pairs Time Decimal
  append_pairs Pairs.no_pairs qs = qs
  append_pairs (Pairs.pair j w ps) qs = Pairs.pair j w (append_pairs ps qs)

  hash_aset-snoc :
      (k : List ℕ) (v : Value Time Decimal) {ps : Pairs Time Decimal}
      → NewKey k ps
      → hash_aset k v ps ≡ snoc ps k v
  unfolding hash_aset
  hash_aset-snoc k v NewKey.no_pairs = refl
  hash_aset-snoc k v (NewKey.pair {j} {w} d n) =
      rw d (ap (Pairs.pair (str utf8 j) w) (hash_aset-snoc k v n))

  append_pairs-snoc :
      (ps : Pairs Time Decimal) (k : List ℕ) (v : Value Time Decimal) (qs : Pairs Time Decimal)
      → append_pairs (snoc ps k v) qs ≡ append_pairs ps (Pairs.pair (str utf8 k) v qs)
  append_pairs-snoc Pairs.no_pairs k v qs = refl
  append_pairs-snoc (Pairs.pair j w ps) k v qs = ap (Pairs.pair j w) (append_pairs-snoc ps k v qs)

  -- The pairs of a hash, set one after the other in another one.
  abbrev pub set_again : Pairs Time Decimal → Pairs Time Decimal → Pairs Time Decimal
  set_again Pairs.no_pairs acc = acc
  set_again (Pairs.pair (Value.str e k) v ps) acc = set_again ps (hash_aset k v acc)
  set_again (Pairs.pair j v ps) acc = set_again ps acc

  -- No key of the second hash is in the first one.
  data Apart (acc : Pairs Time Decimal) : Pairs Time Decimal → Type 0 where
    no_pairs : Apart acc Pairs.no_pairs
    pair :
        {k : List ℕ} {w : Value Time Decimal} {ps : Pairs Time Decimal}
        → NewKey k acc
        → Apart acc ps
        → Apart acc (Pairs.pair (str utf8 k) w ps)

  Apart-hash_aset :
      (k : List ℕ) (v : Value Time Decimal) {acc ps : Pairs Time Decimal}
      → NewKey k ps
      → Apart acc ps
      → Apart (hash_aset k v acc) ps
  Apart-hash_aset k v NewKey.no_pairs a = Apart.no_pairs
  Apart-hash_aset k v (NewKey.pair {j} d n) (Apart.pair m a) =
      Apart.pair (hash_aset-NewKey j k v (same_bytes_comm k j ∙ d) m) (Apart-hash_aset k v n a)

  append_pairs-no_pairs : (ps : Pairs Time Decimal) → append_pairs ps Pairs.no_pairs ≡ ps
  append_pairs-no_pairs Pairs.no_pairs = refl
  append_pairs-no_pairs (Pairs.pair j w ps) = ap (Pairs.pair j w) (append_pairs-no_pairs ps)

module _ {Time Decimal : Type 0} (calls : Calls Time Decimal) where
  pub hash_aset-ShapePairs :
      (k : List ℕ) (v : Value Time Decimal) {ps : Pairs Time Decimal}
      → length k < 2 ^ 64
      → Shape calls v
      → ShapePairs calls ps
      → ShapePairs calls (hash_aset k v ps)
  unfolding hash_aset
  hash_aset-ShapePairs k v h s ShapePairs.no_pairs =
      ShapePairs.pair h NewKey.no_pairs s ShapePairs.no_pairs
  hash_aset-ShapePairs k v h s (ShapePairs.pair {k = j} l n t r) =
      elim (Bool-cases (same_bytes j k)) [
        | inl e ↦ rw e (ShapePairs.pair l n s r)
        | inr e ↦ rw e (
            ShapePairs.pair l (hash_aset-NewKey j k v (same_bytes_comm k j ∙ e) n) t
              (hash_aset-ShapePairs k v h s r))
      ]

  pub count_pairs-hash_aset :
      (k : List ℕ) (v : Value Time Decimal) {ps : Pairs Time Decimal}
      → ShapePairs calls ps
      → count_pairs (hash_aset k v ps) ≤ count_pairs ps + 1
  unfolding count_pairs hash_aset
  count_pairs-hash_aset k v ShapePairs.no_pairs = omega arith
  count_pairs-hash_aset k v (ShapePairs.pair {k = j} l n t r) = elim (Bool-cases (same_bytes j k)) [
    | inl e ↦ rw e (omega arith)
    | inr e ↦ rw e (omega (arith, count_pairs-hash_aset k v r))
  ]

  set_again-append_pairs :
      {ps : Pairs Time Decimal} (acc : Pairs Time Decimal)
      → ShapePairs calls ps
      → Apart acc ps
      → set_again ps acc ≡ append_pairs acc ps
  set_again-append_pairs acc ShapePairs.no_pairs a = sym (append_pairs-no_pairs acc)
  set_again-append_pairs acc (ShapePairs.pair {k} {v} {ps} h n s t) (Apart.pair m a) =
      set_again-append_pairs (hash_aset k v acc) t (Apart-hash_aset k v n a)
      ∙ ap (λ q. append_pairs q ps) (hash_aset-snoc k v m)
      ∙ append_pairs-snoc acc k v ps

  all_Apart : {ps : Pairs Time Decimal} → ShapePairs calls ps → Apart Pairs.no_pairs ps
  all_Apart ShapePairs.no_pairs = Apart.no_pairs
  all_Apart (ShapePairs.pair h n s t) = Apart.pair NewKey.no_pairs (all_Apart t)

  -- Each key stands once, so that nothing falls together.
  pub set_again_lem :
      {ps : Pairs Time Decimal} → ShapePairs calls ps → set_again ps Pairs.no_pairs ≡ ps
  set_again_lem s = set_again-append_pairs Pairs.no_pairs s (all_Apart s)
