-- ===== src/Wire.antt =====
-- The conversions between the messages of the library and those of the generated protobuf module
-- (`TryFrom` and `From` of src/channel/fixed_size_payment.rs and src/messages/): what they share.
pub mod Perunwire
pub mod Payments
pub mod Participants
pub mod Requests
pub mod Envelope
pub mod Encoding
use fork_perun_rs.Base.{
  ℕ, ◌^◌, Bool, List, [], ◌∷◌, Option, Outcome, ok, err, panic, ◌>>=◌, ok_or, length, ◌==◌,
  if◌then◌else◌,
}
use fork_perun_rs.Types.{Bytes}
use fork_perun_rs.Messages.{ConversionError, byte_length_missmatch, exptected_some}

abbrev pub u32_bound : ℕ
u32_bound = 2 ^ 32

-- `try_into()` of a vector, as an array of n bytes.
unfoldable pub try_bytes : ℕ → Bytes → Outcome ConversionError Bytes
try_bytes n b = if length b == n then ok b else err byte_length_missmatch

-- `ok_or(ConversionError::ExptectedSome)?`, and the conversion of what is there.
unfoldable pub try_some :
    {V A : Type 0} → (V → Outcome ConversionError A) → Option V → Outcome ConversionError A
try_some f o = ok_or o exptected_some >>= f

-- The loop `for (a, b) in array.iter_mut().zip(values)`: as many elements of the array are
-- overwritten as there are values.
unfoldable pub fill :
    {V A : Type 0}
    → (V → Outcome ConversionError A)
    → List A
    → List V
    → Outcome ConversionError (List A)
fill f [] _ = ok []
fill f (a ∷ array) [] = ok (a ∷ array)
fill f (_ ∷ array) (v ∷ values) = do a ← f v; rest ← fill f array values; ok (a ∷ rest)

-- `expect` of a result.
unfoldable pub expect : {F E A : Type 0} → Outcome F A → Outcome E A
expect (ok a) = ok a
expect (err _) = panic
expect panic = panic
