-- ===== src/Types.antt =====
-- src/abiencode/types.rs, as_bytes.rs, as_dyn_array.rs and hashing.rs: the byte arrays, how they
-- serialize, and the hash of an encoding.
use fork_perun_rs.Base.{ℕ, ◌-◌, List, [], ◌∷◌, ◌++◌, Outcome, ok, ◌>>=◌, some, length, replicate}
use fork_perun_rs.External.{External}
use fork_perun_rs.Abi.Bytes.{flatten}
use fork_perun_rs.Abi.Value.{Value, nil, cons, items, u64, uint, bytes, unit_struct, seq, tuple}
use fork_perun_rs.Abi.Ser.{Error, mark_dynamic_name, to_writer}

-- `[u8; N]`, and the newtypes over it.
abbrev pub Bytes : Type 0
Bytes = List ℕ

abbrev pub Hash : Type 0
Hash = Bytes

abbrev pub Address : Type 0
Address = Bytes

abbrev pub Signature : Type 0
Signature = Bytes

abbrev pub NonceShare : Type 0
NonceShare = Bytes

-- `Serialize` of the types made by `bytesN!`.
abbrev pub bytes_n_value : Bytes → Value
bytes_n_value b = bytes b

-- `Serialize` of `Address`: the bytes stand at the right end of 32 bytes.
abbrev pub address_value : Address → Value
address_value a = bytes (replicate (32 - 20) 0 ++ a)

abbrev pub u256_value : External → ℕ → Value
u256_value x n = bytes (x.u256_to_big_endian n)

-- `Signature::new`.
unfoldable pub signature_new : Bytes → ℕ → Signature
signature_new rs v = rs ++ v ∷ []

-- `as_bytes::serialize`: a tuple that is dynamic, of the length and the bytes.
abbrev pub as_bytes : Bytes → Value
as_bytes v =
    tuple (cons (unit_struct mark_dynamic_name) (cons (uint u64 (length v)) (cons (bytes v) nil)))

-- `as_dyn_array::serialize`.
abbrev pub as_dyn_array : {A : Type 0} → (A → Value) → List A → Value
as_dyn_array f xs = seq (some (length xs)) (items f xs)

-- `to_hash`: the writer feeds every slot to the hasher.
unfoldable pub to_hash : External → Value → Outcome Error Hash
to_hash x value = do slots ← to_writer value; ok (x.keccak256 (flatten slots))
