-- ===== src/Cbor/Value.antt =====
-- The Ruby values that ext/aws_crt/src/cbor.rs encodes and decodes. Strings are lists of bytes with
-- their encoding, floats are the bits of an f64, integers are unbounded. What Time and BigDecimal
-- hold is Ruby's own, so their contents are two type parameters. An object of any other class is
-- known by the name of its class and by its Ruby type, which only chooses the branch that refuses it.
use aws_crt.Prelude.{ℕ, suc, List, String, Bool, if◌then◌else◌, same_bytes}
use aws_crt.Prelude.Int.{ℤ}

pub data Encoding : Type 0 where
  binary utf8 : Encoding
  other_encoding : ℕ → Encoding

pub data RubyType : Type 0 where
  struct_type data_type other_type : RubyType

-- `Items` and `Pairs` are the contents of an Array and of a Hash, in order.
mutual
  pub data Value (Time Decimal : Type 0) : Type 0 where
    nil : Value Time Decimal
    bool : Bool → Value Time Decimal
    int : ℤ → Value Time Decimal
    float : ℕ → Value Time Decimal
    str : Encoding → List ℕ → Value Time Decimal
    symbol : List ℕ → Value Time Decimal
    array : Items Time Decimal → Value Time Decimal
    hash : Pairs Time Decimal → Value Time Decimal
    tagged : ℕ → Value Time Decimal → Value Time Decimal
    time : Time → Value Time Decimal
    decimal : Decimal → Value Time Decimal
    object : RubyType → String → Value Time Decimal

  pub data Items (Time Decimal : Type 0) : Type 0 where
    no_items : Items Time Decimal
    item : Value Time Decimal → Items Time Decimal → Items Time Decimal

  pub data Pairs (Time Decimal : Type 0) : Type 0 where
    no_pairs : Pairs Time Decimal
    pair : Value Time Decimal → Value Time Decimal → Pairs Time Decimal → Pairs Time Decimal

module _ {Time Decimal : Type 0} where
  -- RARRAY_LEN and rb_hash_size.
  unfoldable pub count_items : Items Time Decimal → ℕ
  count_items no_items = 0
  count_items (item v vs) = suc (count_items vs)

  unfoldable pub count_pairs : Pairs Time Decimal → ℕ
  count_pairs no_pairs = 0
  count_pairs (pair k v ps) = suc (count_pairs ps)

  -- rb_hash_aset with a UTF-8 string for its key: the value of an equal key is replaced in place,
  -- and a new key goes to the end.
  unfoldable pub hash_aset : List ℕ → Value Time Decimal → Pairs Time Decimal → Pairs Time Decimal
  hash_aset k v no_pairs = pair (str utf8 k) v no_pairs
  hash_aset k v (pair (str utf8 j) w ps) =
      if same_bytes j k then pair (str utf8 j) v ps else pair (str utf8 j) w (hash_aset k v ps)
  hash_aset k v (pair j w ps) = pair j w (hash_aset k v ps)
