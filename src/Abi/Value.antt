-- ===== src/Abi/Value.antt =====
-- What a `Serialize` implementation hands to the serializer: the data model of serde, one
-- constructor for each `serialize_…` method of `ser::Serializer`. Field and type names are left
-- out where the serializer only prints them; that of a unit struct is compared, and stays.
use fork_perun_rs.Base.{ℕ, Bool, String, List, [], ◌∷◌, Option}

pub data IntType : Type 0 where
  i8 i16 i32 i64 i128 : IntType

pub data UintType : Type 0 where
  u8 u16 u32 u64 u128 : UintType

-- Bytes of an integer type.
abbrev pub int_bytes : IntType → ℕ
int_bytes i8 = 1
int_bytes i16 = 2
int_bytes i32 = 4
int_bytes i64 = 8
int_bytes i128 = 16

abbrev pub uint_bytes : UintType → ℕ
uint_bytes u8 = 1
uint_bytes u16 = 2
uint_bytes u32 = 4
uint_bytes u64 = 8
uint_bytes u128 = 16

-- A signed integer is its two's complement bit pattern. Bytes and the bytes of a string are
-- numbers below 256. A sequence carries the length that is announced before its elements.
mutual
  pub data Value : Type 0 where
    bool : Bool → Value
    int : IntType → ℕ → Value
    uint : UintType → ℕ → Value
    f32 f64 char : Value
    str : List ℕ → Value
    bytes : List ℕ → Value
    option_none : Value
    option_some : Value → Value
    unit : Value
    unit_struct : String → Value
    unit_variant : Value
    newtype_struct : Value → Value
    newtype_variant : Value → Value
    seq : Option ℕ → Items → Value
    tuple : Items → Value
    tuple_struct : Items → Value
    tuple_variant : Items → Value
    map : Items → Value
    struct : Items → Value
    struct_variant : Items → Value

  pub data Items : Type 0 where
    nil : Items
    cons : Value → Items → Items

abbrev pub count : Items → ℕ
count nil = 0
count (cons v vs) = ℕ.suc (count vs)

-- The items of a list of things that serialize.
unfoldable pub items {ℓ} : {A : Type ℓ} → (A → Value) → List A → Items
items f [] = nil
items f (x ∷ xs) = cons (f x) (items f xs)
